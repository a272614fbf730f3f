-- ===== src/Compiler/Refinement.antt =====
-- `compile_expression` of src/compiler.c against the meaning of an expression: the code that it emits
-- computes on the machine of src/vm.c the number that the expression is.
use mathlib.Core.Path.{subst}
use basset_lang.Prelude.{
  Ensures, ℕ, ◌%◌, ◌^◌, ◌==◌, ◌≡◌, refl, sym, ap, ◌∙◌, arith, ℤ, pos, false, some, Option, List,
  ◌∷◌, length, Option-cases, inl, inr,
}
use basset_lang.Host.{Host, Str}
use basset_lang.Bytecode.{Op}
use basset_lang.Tokens
use basset_lang.Program.{VarType}
use basset_lang.Vm.State.{Value, number, Vm}
use basset_lang.Vm.Stack.{num}
use basset_lang.Vm.Execute.{has_dollar}
use basset_lang.Compiler.{CompilerState, find_variable, compiler_find_variable}
use basset_lang.Compiler.Tree.{
  expression, variable, constant, operator, function_call, ParseNode, null, node, Children, nil,
  cons, count,
}
use basset_lang.Compiler.Emit.{Step, ◌>=>◌, emit, push_number, slot_of, get_var_type}
use basset_lang.Compiler.Expressions.{
  opcode_of, binary_table, unary_opcode, function_opcode, emit_known, compile_constant,
  compile_variable, compile_operator, compile_wrapper, compile_node, compile_expression,
  compile_child, compile_all,
}
use basset_lang.Compiler.Meaning.{
  Evaluates, of_null, of_constant, of_variable, of_wrapper, of_binary, of_unary, of_function,
  binary_values,
}
use basset_lang.Compiler.Execution.{Runs, some_injective}
use basset_lang.Compiler.Operators.{
  Implements₁, opcode_of-lookup, binary_table_lem, unary_opcode-lookup, function_opcode-lookup,
  push_var_lem,
}
use basset_lang.Compiler.Growth.{Grows, Fits, Does, Does-append, Does-emit, Does-push_number}

module _ {h : Host} where
  constant_code :
      (token : ℕ) (text : Option Str) (value : h.Double) (line : ℤ) (kids : Children h)
      → (token == Tokens.tok_string) ≡ false
      → compile_expression (node constant token text value line kids) ≡ push_number value
  unfolding compile_expression compile_node compile_constant
  constant_code token text value line kids e = rw e refl

  slot_found :
      (name : Str) (type : VarType) (slot : ℕ) (cs : CompilerState h)
      → find_variable cs.program.var_table name ≡ pos slot
      → slot_of name type cs ≡ (pos slot, cs)
  unfolding slot_of compiler_find_variable
  slot_found name type slot cs e = rw (slot_of, e) refl

  variable_code :
      (token : ℕ) (name : Str) (value : h.Double) (line : ℤ) (slot : ℕ) (cs : CompilerState h)
      → has_dollar name ≡ false
      → find_variable cs.program.var_table name ≡ pos slot
      → compile_expression (node variable token (some name) value line nil) cs
        ≡ emit Op.push_var (slot % 2 ^ 16) cs
  unfolding compile_expression compile_node compile_variable count
  variable_code token name value line slot cs plain found =
      rw (plain, slot_found name (get_var_type name) slot cs found) refl

  wrapper_code :
      (token : ℕ) (text : Option Str) (value : h.Double) (line : ℤ) (n : ParseNode h)
      → compile_expression (node expression token text value line (cons n nil))
        ≡ compile_expression n
  unfolding compile_expression compile_child compile_node compile_wrapper count
  wrapper_code token text value line n = refl

  binary_code :
      (token : ℕ) (text : Option Str) (value : h.Double) (line : ℤ) (a b : ParseNode h) (op : Op)
      → opcode_of binary_table token ≡ some op
      → compile_expression (node operator token text value line (cons a (cons b nil)))
        ≡ (compile_expression a >=> compile_expression b >=> emit op 0)
  unfolding compile_expression compile_child compile_node compile_operator emit_known count
  binary_code token text value line a b op e = rw e refl

  unary_code :
      (token : ℕ) (text : Option Str) (value : h.Double) (line : ℤ) (a : ParseNode h) (op : Op)
      → unary_opcode token ≡ some op
      → compile_expression (node operator token text value line (cons a nil))
        ≡ (compile_expression a >=> emit op 0)
  unfolding compile_expression compile_child compile_node compile_operator emit_known count
  unary_code token text value line a op e = rw e refl

  -- One argument: all the arguments are the first.
  function_code :
      (token : ℕ) (text : Option Str) (value : h.Double) (line : ℤ) (a : ParseNode h) (op : Op)
      (cs : CompilerState h)
      → function_opcode token 1 ≡ some op
      → compile_expression (node function_call token text value line (cons a nil)) cs
        ≡ (compile_expression a >=> emit op 0) cs
  unfolding compile_expression compile_all compile_node emit_known count
  function_code token text value line a op cs e = elim (Option-cases (compile_expression a cs)) [
    | inl q ↦ rw (e, q) refl
    | inr (cs', q) ↦ rw (e, q) refl
  ]

  null_code : (cs : CompilerState h) → compile_expression null cs ≡ push_number (num h 0) cs
  unfolding compile_expression
  null_code cs = refl

  -- A step that does the same on the state.
  Does-same :
      (vm : Vm h) (f g : Step h) (cs : CompilerState h) (p q : List (Value h) → List (Value h))
      → f cs ≡ g cs
      → Does vm g cs p q
      → Does vm f cs p q
  Does-same vm f g cs p q e d = record {
    result = d.result;
    compiles = e ∙ d.compiles;
    grows = d.grows;
    runs = d.runs;
  }

  -- A number below on the stack stays.
  Does-over :
      (vm : Vm h) (f : Step h) (cs : CompilerState h) (x y : h.Double)
      → Does vm f cs (λ s. s) (λ s. number y ∷ s)
      → Does vm f cs (λ s. number x ∷ s) (λ s. number y ∷ number x ∷ s)
  Does-over vm f cs x y d = record {
    result = d.result;
    compiles = d.compiles;
    grows = d.grows;
    runs = λ fits s c. d.runs fits (number x ∷ s) c;
  }

  -- An operand, then an instruction on it.
  Does-unary :
      (vm : Vm h) (f : Step h) (op : Op) (g : h.Double → h.Double) (x : h.Double)
      (cs : CompilerState h)
      → Implements₁ h op g
      → Does vm f cs (λ s. s) (λ s. number x ∷ s)
      → Does vm (f >=> emit op 0) cs (λ s. s) (λ s. number (g x) ∷ s)
  Does-unary vm f op g x cs good d =
      Does-append vm f (emit op 0) cs (λ s. s) (λ s. number x ∷ s) (λ s. number (g x) ∷ s) d
        (Does-emit vm op 0 d.result (λ s. number x ∷ s) (λ s. number (g x) ∷ s)
          (λ pc s c. good vm pc x s c))

  -- By induction on the meaning.
  compile_expression-Does :
      {vm : Vm h} {n : ParseNode h} {v : h.Double}
      → Evaluates vm n v
      → (cs : CompilerState h) → cs.program.var_table ≡ vm.program.var_table
      → Does vm (compile_expression n) cs (λ s. s) (λ s. number v ∷ s)
  compile_expression-Does {vm} (of_null exact) cs table =
      Does-same vm _ (push_number (num h 0)) cs _ _ (null_code cs)
        (Does-push_number vm (num h 0) cs exact)
  compile_expression-Does {vm} (of_constant {token} {text} {value} {line} {kids} e exact) cs table =
      Does-same vm _ (push_number value) cs _ _
        (ap (λ f. f cs) (constant_code token text value line kids e))
        (Does-push_number vm value cs exact)
  compile_expression-Does {vm}
        (of_variable {token} {name} {value} {line} {slot} {x} plain found small stored) cs table =
      let here : find_variable cs.program.var_table name ≡ pos slot = rw table found in
      let whole : slot % 2 ^ 16 ≡ slot = omega arith in
      Does-same vm _ (emit Op.push_var (slot % 2 ^ 16)) cs _ _
        (variable_code token name value line slot cs plain here)
        (rw whole (
          Does-emit vm Op.push_var slot cs (λ s. s) (λ s. number x ∷ s)
            (λ pc s c. push_var_lem h vm slot pc x s c stored)))
  compile_expression-Does {vm} (of_wrapper {token} {text} {value} {line} {n} d) cs table =
      Does-same vm _ (compile_expression n) cs _ _
        (ap (λ f. f cs) (wrapper_code token text value line n)) (compile_expression-Does d cs table)
  compile_expression-Does {vm}
        (of_binary {token} {text} {value} {line} {a} {b} {x} {y} {z} {f} known d e is) cs table =
      let (op, found, good) =
        opcode_of-lookup h binary_table (binary_values h) token f (binary_table_lem h) known in
      let first = compile_expression-Does d cs table in
      let over =
        Does-over vm _ first.result x y
          (compile_expression-Does e first.result (first.grows.table ∙ table)) in
      Does-same vm _ (compile_expression a >=> compile_expression b >=> emit op 0) cs _ _
        (ap (λ g. g cs) (binary_code token text value line a b op found))
        (Does-append vm _ (compile_expression b >=> emit op 0) cs (λ s. s) (λ s. number x ∷ s)
          (λ s. number z ∷ s) first
          (Does-append vm _ (emit op 0) first.result (λ s. number x ∷ s)
            (λ s. number y ∷ number x ∷ s) (λ s. number z ∷ s) over
            (Does-emit vm op 0 over.result (λ s. number y ∷ number x ∷ s) (λ s. number z ∷ s)
              (λ pc s c. good vm pc x y z s c is))))
  compile_expression-Does {vm} (of_unary {token} {text} {value} {line} {a} {x} {f} known d) cs
        table =
      let (op, found, good) = unary_opcode-lookup h token f known in
      Does-same vm _ (compile_expression a >=> emit op 0) cs _ _
        (ap (λ g. g cs) (unary_code token text value line a op found))
        (Does-unary vm (compile_expression a) op f x cs good (compile_expression-Does d cs table))
  compile_expression-Does {vm} (of_function {token} {text} {value} {line} {a} {x} {f} known d) cs
        table =
      let (op, found, good) = function_opcode-lookup h token f known in
      Does-same vm _ (compile_expression a >=> emit op 0) cs _ _
        (function_code token text value line a op cs found)
        (Does-unary vm (compile_expression a) op f x cs good (compile_expression-Does d cs table))

  -- An expression over numbers that has a value, in a compiler whose table of variables is that of the
  -- machine's program: it compiles, and the code, the pool of constants and the table keep what they
  -- have.
  pub compile_expression-Grows :
      {vm : Vm h} {n : ParseNode h} {v : h.Double}
      → Evaluates vm n v
      → (cs : CompilerState h) → cs.program.var_table ≡ vm.program.var_table
      → Ensures (Grows cs) (compile_expression n cs)
  compile_expression-Grows d cs table =
      let does = compile_expression-Does d cs table in rw does.compiles does.grows

  -- An expression over numbers that has a value, in a compiler whose table of variables is that of the
  -- machine's program. On a machine that runs a program with the code and the constants that the
  -- expression compiled to, with fewer than 2^32 instructions and 65536 constants, the code runs from its
  -- first instruction to the one after it, and pushes the value. Nothing else changes but the capacity of
  -- the stack and the flag of a trap, which is clear.
  pub compile_expression-Runs :
      {vm : Vm h} {n : ParseNode h} {v : h.Double}
      → Evaluates vm n v
      → (cs cs' : CompilerState h) → cs.program.var_table ≡ vm.program.var_table
      → compile_expression n cs ≡ some cs'
      → Fits vm cs cs'
      → (s : List (Value h)) (c : ℕ)
      → Runs vm (length cs.program.code) s c (length cs'.program.code) (number v ∷ s)
  compile_expression-Runs {vm} {n} {v} d cs cs' table e fits s c =
      let does = compile_expression-Does d cs table in
      let same : cs' ≡ does.result = some_injective cs' does.result (sym e ∙ does.compiles) in
      let fits' = subst (λ k. Fits vm cs k) same fits in rw same (does.runs fits' s c)
