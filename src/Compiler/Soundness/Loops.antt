-- ===== src/Compiler/Soundness/Loops.antt =====
-- FOR and NEXT of src/compiler.c keep the invariant of the compiler.
use basset_lang.Prelude.{
  ℕ, arith, Bool, true, false, Option, none, some, List, [], length, if◌then◌else◌, ◌==◌,
}
use basset_lang.Host.{Host, Str}
use basset_lang.Bytecode.{Op}
use basset_lang.Vm.Stack.{num}
use basset_lang.Compiler.{CompilerState, compiler_emit}
use basset_lang.Compiler.Tree.{
  NodeType, statement, expression, variable, constant, operator, function_call, assignment,
  ParseNode, null, node, Children, nil, cons, unwrap,
}
use basset_lang.Compiler.Storage.{}
use basset_lang.Compiler.Items.{}
use basset_lang.Compiler.Loops.{
  compile_step, compile_for, NextState, next_variable, next_node, compile_next_variables,
  compile_next_all, next_first, compile_next, has_name, ends_statement,
}
use basset_lang.Compiler.Soundness.{IsSound, After, Keeps, seq, required}
use basset_lang.Compiler.Soundness.Steps.{
  compiler_emit-IsSound, push_number_keeps, with_child_keeps, with_name_keeps,
}
use basset_lang.Compiler.Soundness.Expressions.{expression_keeps, child_keeps}
use basset_lang.Compiler.Soundness.Storage.{on_slot_keeps}

module _ {h : Host} where
  step_keeps : (n : ParseNode h) → Keeps h (compile_step n)
  unfolding compile_step
  step_keeps null = push_number_keeps (num h 1)
  step_keeps (node expression token text value line kids) = push_number_keeps (num h 1)
  step_keeps (node statement token text value line kids) =
      expression_keeps (node statement token text value line kids)
  step_keeps (node variable token text value line kids) =
      expression_keeps (node variable token text value line kids)
  step_keeps (node constant token text value line kids) =
      expression_keeps (node constant token text value line kids)
  step_keeps (node operator token text value line kids) =
      expression_keeps (node operator token text value line kids)
  step_keeps (node function_call token text value line kids) =
      expression_keeps (node function_call token text value line kids)
  step_keeps (node assignment token text value line kids) =
      expression_keeps (node assignment token text value line kids)

  pub for_keeps : (kids : Children h) → Keeps h (compile_for kids)
  unfolding compile_for
  for_keeps kids = required 5 kids _ (
      with_child_keeps kids 0 _ (λ var. with_name_keeps (unwrap var) _ (λ name.
        on_slot_keeps name _ _ Op.for_init
          (seq _ _ (child_keeps kids 2) (seq _ _ (child_keeps kids 4) (step_keeps _))))))

  -- The invariant, and no less code than `n`, after the variables of NEXT.
  abbrev NextKeeps : (NextState h → ℕ × NextState h) → Type 0
  NextKeeps f =
      (seen : List Str) (cs : CompilerState h)
      → IsSound cs
      → After (length cs.program.code) (some (f (seen, cs)).1.1)

  next_variable_keeps : (name : Str) → NextKeeps (next_variable name)
  unfolding next_variable
  next_variable_keeps name seen cs s = go (has_name name seen) _ _
    where
      go :
          (b : Bool) (slot : ℕ) (seen' : List Str)
          → let r : ℕ × NextState h =
              if b then (0, (seen, cs)) else (1, (seen', compiler_emit Op.for_next slot cs)) in
            After (length cs.program.code) (some r.1.1)
      go true slot seen' = (s, omega arith)
      go false slot seen' = compiler_emit-IsSound Op.for_next slot cs s

  skip_or :
      (b : Bool) (f : NextState h → ℕ × NextState h)
      → NextKeeps f
      → NextKeeps (λ s. if b then (0, s) else f s)
  skip_or true f k seen cs s = (s, omega arith)
  skip_or false f k seen cs s = k seen cs s

  next_node_keeps :
      (type : NodeType) (token : ℕ) (text : Option Str) (f : NextState h → ℕ × NextState h)
      → NextKeeps f
      → NextKeeps (next_node type token text f)
  unfolding next_node
  next_node_keeps variable token (some name) f k =
      skip_or _ (next_variable name) (next_variable_keeps name)
  next_node_keeps variable token none f k = skip_or _ f k
  next_node_keeps statement token text f k = skip_or _ f k
  next_node_keeps expression token text f k = skip_or _ f k
  next_node_keeps constant token text f k = skip_or _ f k
  next_node_keeps operator token text f k = skip_or _ f k
  next_node_keeps function_call token text f k = skip_or _ f k
  next_node_keeps assignment token text f k = skip_or _ f k

  next_both :
      (f g : NextState h → ℕ × NextState h) (seen : List Str) (cs : CompilerState h)
      → IsSound cs
      → NextKeeps f
      → NextKeeps g
      → After (length cs.program.code) (some (g (f (seen, cs)).1).1.1)
  next_both f g seen cs s kf kg =
      let r = (f (seen, cs)).1 in
      let (s₁, le₁) = kf seen cs s in let (s₂, le₂) = kg r.0 r.1 s₁ in (s₂, omega arith)

mutual
  unfolding compile_next_variables

  next_variables_keep : {h : Host} (n : ParseNode h) → NextKeeps (compile_next_variables n)
  next_variables_keep null seen cs s = (s, omega arith)
  next_variables_keep (node type token text value line kids) seen cs s =
      next_node_keeps type token text (compile_next_all kids) (next_all_keeps kids) seen cs s

  next_all_keeps : {h : Host} (kids : Children h) → NextKeeps (compile_next_all kids)
  next_all_keeps nil seen cs s = (s, omega arith)
  next_all_keeps (cons c kids) seen cs s =
      next_both (compile_next_variables c) (compile_next_all kids) seen cs s (next_variables_keep c)
        (next_all_keeps kids)

module _ {h : Host} where
  next_first_keeps :
      (kids : Children h) (seen : List Str) → Keeps h (λ cs. some (next_first kids (seen, cs)))
  unfolding next_first
  next_first_keeps nil seen cs s = compiler_emit-IsSound Op.for_next 0xffff cs s
  next_first_keeps (cons c kids) seen cs s =
      let r = compile_next_variables c (seen, cs) in
      let (s₁, le₁) = next_variables_keep c seen cs s in
      let (s₂, le₂) = next_first_keeps kids r.1.0 r.1.1 s₁ in
      let here : After (length cs.program.code) (some (next_first kids r.1)) = (s₂, omega arith) in
      go (ends_statement c) (r.0 == 0) (next_first_keeps kids seen cs s) here (s₁, le₁)
    where
      go :
          (b b' : Bool) {x y z : CompilerState h}
          → After (length cs.program.code) (some x)
          → After (length cs.program.code) (some y)
          → After (length cs.program.code) (some z)
          → After (length cs.program.code) (some (if b then x else if b' then y else z))
      go true b' kx ky kz = kx
      go false true kx ky kz = ky
      go false false kx ky kz = kz

  pub next_keeps : (kids : Children h) → Keeps h (compile_next kids)
  unfolding compile_next
  next_keeps kids cs s = next_first_keeps kids [] cs s
