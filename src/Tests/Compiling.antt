-- ===== src/Tests/Compiling.antt =====
-- The compiler and the files of programs at concrete inputs.
use basset_lang.Prelude.{
  ℕ, ◌≤◌, ◌≡◌, refl, ap, arith, ℤ, pos, negsuc, true, false, none, some, [], ◌∷◌, ◌++◌, Ensures,
  replicate,
}
use basset_lang.Bytecode.{Op}
use basset_lang.LineMap.{find_line_offset}
use basset_lang.Tokens
use basset_lang.Vm.Arith.{strcmp}
use basset_lang.Vm.State.{Vm, number}
use basset_lang.Vm.Execute.{vm_init, has_dollar}
use basset_lang.Compiler.{
  CompilerState, jump_absolute, find_variable, compiler_find_variable, compiler_add_const,
  compiler_emit,
}
use basset_lang.Compiler.Tree.{
  statement, operator, variable, constant, ParseNode, node, Children, nil, cons, count, child,
  value_of,
}
use basset_lang.Compiler.Emit.{push_number, slot_of}
use basset_lang.Compiler.Expressions.{compile_expression, opcode_of}
use basset_lang.Compiler.Meaning.{Evaluates, of_variable, of_constant, of_binary, lookup, IsExact}
use basset_lang.Compiler.Execution.{Runs}
use basset_lang.Compiler.Growth.{Grows, Fits}
use basset_lang.Compiler.Refinement.{compile_expression-Runs, compile_expression-Grows}
use basset_lang.Compiler.Whole.{empty_program, compiler_state_new}
use basset_lang.Compiler.Statements.{compile_statement}
use basset_lang.Compiler.Fixups.{AreApart}
use basset_lang.Compiler.Soundness.Statements.{compile_statement-AreApart}
use basset_lang.Compiler.Branches.{compile_goto}
use basset_lang.Compiler.Tree.{is_type}
use basset_lang.Tests.Hosts.{integers, equal_ℤ}
use basset_lang.Tests.Runs.{ins, sample}

abbrev leaf : ℕ → ℤ → ParseNode integers
leaf token value = node constant token none value (pos 0) nil

-- T + 3 * 2
abbrev tree : ParseNode integers
tree = node operator Tokens.tok_cplus none (pos 0) (pos 0) (
    cons (node variable Tokens.tok_ident (some (84 ∷ [])) (pos 0) (pos 0) nil) (
      cons
        (node operator Tokens.tok_cmul none (pos 0) (pos 0)
          (cons (leaf Tokens.tok_number (pos 3)) (cons (leaf Tokens.tok_number (pos 2)) nil)))
        nil))

abbrev start : CompilerState integers
start = record {
  program = sample;
  jump_fixups = [];
  current_line = 30;
  has_error = false;
  undefined_line = none;
}

abbrev compiled : CompilerState integers
compiled = record start {
  program = record sample {
    code =
        sample.code
        ++ (ins Op.push_var 2
            ∷ ins Op.push_const 3
            ∷ ins Op.push_const 2
            ∷ ins Op.mul 0
            ∷ ins Op.add 0
            ∷ []);
    const_pool = sample.const_pool ++ (pos 3 ∷ []);
  };
}

abbrev machine : Vm integers
machine = vm_init compiled.program []

equal_ℤ-sound : (a b : ℤ) → equal_ℤ a b ≡ true → a ≡ b
equal_ℤ-sound (pos a) (pos b) e = ap pos (ground arith)
equal_ℤ-sound (pos a) (negsuc b) e = absurd (ground arith)
equal_ℤ-sound (negsuc a) (pos b) e = absurd (ground arith)
equal_ℤ-sound (negsuc a) (negsuc b) e = ap negsuc (ground arith)

exact : (v : ℤ) → IsExact machine v
exact v i x found e = equal_ℤ-sound x v e

tree-Evaluates : Evaluates machine tree (integers.add (pos 0) (integers.mul (pos 3) (pos 2)))
unfolding lookup find_variable vm_init has_dollar replicate strcmp
tree-Evaluates =
    of_binary refl (of_variable {name = 84 ∷ []} {slot = 2} refl refl (omega arith) refl)
      (of_binary refl (of_constant refl (exact (pos 3))) (of_constant refl (exact (pos 2))) refl)
      refl

tree-compiled : compile_expression tree start ≡ some compiled
unfolding compile_expression count push_number opcode_of compiler_emit compiler_add_const slot_of
    compiler_find_variable strcmp has_dollar
tree-compiled = refl

machine-Fits : Fits machine start compiled
unfolding vm_init
machine-Fits = record {
  running = refl;
  short = omega arith;
  room = omega arith;
  code = λ i inst far e. e;
  pool = λ i x e. e;
}

same_table : start.program.var_table ≡ machine.program.var_table
unfolding vm_init
same_table = refl

compile_expression-Runs_example :
    Runs machine 17 [] 256 22 (number (integers.add (pos 0) (integers.mul (pos 3) (pos 2))) ∷ [])
compile_expression-Runs_example =
    compile_expression-Runs tree-Evaluates start compiled same_table tree-compiled machine-Fits []
      256

compile_expression-Grows_example : Ensures (Grows start) (compile_expression tree start)
compile_expression-Grows_example = compile_expression-Grows tree-Evaluates start same_table

-- 10 GOTO 20, and 20 END
abbrev goto_line : ParseNode integers
goto_line =
    node statement Tokens.tok_goto none (pos 0) (pos 10)
      (cons (leaf Tokens.tok_number (pos 20)) nil)

abbrev end_line : ParseNode integers
end_line = node statement Tokens.tok_end none (pos 0) (pos 20) nil

abbrev lines : Children integers
lines = cons goto_line (cons end_line nil)

abbrev root : ParseNode integers
root = node statement 0 none (pos 0) (pos 0) lines

abbrev jumping : CompilerState integers
jumping = record compiler_state_new {
  program = record empty_program {
    code = ins Op.jump 0xffff ∷ ins Op.end 0 ∷ [];
    line_map =
        record { line_number = 10; pc_offset = 0 }
        ∷ record { line_number = 20; pc_offset = 1 }
        ∷ [];
  };
  jump_fixups = record { instruction_offset = 0; target_line = 20; type = jump_absolute } ∷ [];
  current_line = 20;
}

abbrev after_goto : CompilerState integers
after_goto = record start {
  program = record sample { code = sample.code ++ (ins Op.jump 13 ∷ []) };
}

goto_compiled : compile_statement goto_line start ≡ some after_goto
unfolding compile_statement compile_goto count child is_type value_of find_line_offset compiler_emit
goto_compiled = refl

compile_statement-AreApart_example : AreApart 18 [] × (false ≡ false) × (17 ≤ 18)
compile_statement-AreApart_example =
    compile_statement-AreApart goto_line start after_goto refl tt goto_compiled (omega arith)
