-- ===== src/Compiler/Soundness/Expressions.antt =====
-- `compile_expression` of src/compiler.c keeps the invariant of the compiler.
use basset_lang.Prelude.{
  ℕ, zero, suc, ℤ, Bool, true, false, ltb, Option, none, some, if◌then◌else◌, ◌==◌,
}
use basset_lang.Host.{Host, Str}
use basset_lang.Bytecode.{Op}
use basset_lang.Tokens
use basset_lang.Vm.Stack.{num}
use basset_lang.Vm.Execute.{has_dollar}
use basset_lang.Compiler.Tree.{
  NodeType, statement, expression, variable, constant, operator, function_call, assignment,
  ParseNode, null, node, Children, nil, cons, count, is_type,
}
use basset_lang.Compiler.Emit.{Step, ◌>=>◌, undefined, emit, push_text, to_u16, get_var_type}
use basset_lang.Compiler.Expressions.{
  opcode_of, binary_table, function_opcode, unary_opcode, array_get, emit_known, compile_constant,
  compile_variable, compile_operator, compile_wrapper, compile_node, compile_expression,
  compile_child, compile_all, first_operator,
}
use basset_lang.Compiler.Soundness.{Keeps, seq, done, stuck, branch, branch_at}
use basset_lang.Compiler.Soundness.Steps.{
  emits, push_number_keeps, push_text_keeps, with_slot_keeps,
}

module _ {h : Host} where
  emit_known_keeps : (op : Option Op) → Keeps h (emit_known op)
  unfolding emit_known
  emit_known_keeps none cs s = done cs s
  emit_known_keeps (some op) cs s = emits op 0 cs s

  constant_keeps :
      (token : ℕ) (text : Option Str) (value : h.Double)
      → Keeps h (compile_constant token text value)
  unfolding compile_constant
  constant_keeps token text value =
      branch (token == Tokens.tok_string) _ _ (go text) (push_number_keeps value)
    where
      go :
          (text : Option Str)
          → Keeps h (elim text as (λ _. Step h) [ none ↦ undefined | some str ↦ push_text str ])
      go none = stuck
      go (some str) = push_text_keeps str

  variable_keeps :
      (text : Option Str) (args : ℕ) (f g : Step h)
      → Keeps h f
      → Keeps h g
      → Keeps h (compile_variable text args f g)
  unfolding compile_variable
  variable_keeps none args f g kf kg cs s = tt
  variable_keeps (some name) args f g kf kg cs₀ s₀ =
      let string = has_dollar name in
      let simple =
        λ (slot : ℤ). emit (if string then Op.str_push_var else Op.push_var) (to_u16 slot) in
      let one = λ (slot : ℤ). f >=> emit (array_get string false) (to_u16 slot) in
      let two = λ (slot : ℤ). f >=> g >=> emit (array_get string true) (to_u16 slot) in
      with_slot_keeps name (get_var_type name) cs₀
        (λ slot cs.
          if args == 0 then simple slot cs else if args == 1 then one slot cs else two slot cs)
        s₀
        (λ slot cs s.
          branch_at (args == 0) (simple slot)
            (λ cs'. if args == 1 then one slot cs' else two slot cs') cs s (emits _ (to_u16 slot))
            (λ cs' s'.
              branch_at (args == 1) (one slot) (two slot) cs' s'
                (seq f _ kf (emits (array_get string false) (to_u16 slot)))
                (seq f _ kf (seq g _ kg (emits (array_get string true) (to_u16 slot))))))

  operator_keeps :
      (token args : ℕ) (f g : Step h)
      → Keeps h f
      → Keeps h g
      → Keeps h (compile_operator token args f g)
  unfolding compile_operator
  operator_keeps token args f g kf kg =
      branch (ltb 1 args) _ _
        (seq f _ kf (seq g _ kg (emit_known_keeps (opcode_of binary_table token))))
        (branch (args == 1) _ _ (seq f _ kf (emit_known_keeps (unary_opcode token))) done)

  -- The operator that was found, where one was.
  KeepsFound : Option (Step h) → Type 0
  KeepsFound none = Unit
  KeepsFound (some f) = Keeps h f

  found_keeps :
      (b : Bool) (f : Step h) (found : Option (Step h))
      → Keeps h f
      → KeepsFound found
      → KeepsFound (if b then some f else found)
  unfolding KeepsFound
  found_keeps true f found kf k = kf
  found_keeps false f found kf k = k

  wrapper_keeps :
      (args : ℕ) (f all : Step h) (found : Option (Step h))
      → Keeps h f
      → Keeps h all
      → KeepsFound found
      → Keeps h (compile_wrapper args f all found)
  unfolding compile_wrapper KeepsFound
  wrapper_keeps args f all found kf kall kfound =
      branch (args == 1) _ _ kf
        (branch (args == 0) _ _ (push_number_keeps (num h 0)) (go found kfound))
    where
      go :
          (found : Option (Step h))
          → KeepsFound found
          → Keeps h (elim found as (λ _. Step h) [ none ↦ all | some step ↦ step ])
      go none k = kall
      go (some f) k = k

  node_keeps :
      (type : NodeType) (token : ℕ) (text : Option Str) (value : h.Double) (args : ℕ)
      (f g all : Step h)
      → (found : Option (Step h)) → Keeps h f
      → Keeps h g
      → Keeps h all
      → KeepsFound found
      → Keeps h (compile_node type token text value args f g all found)
  unfolding compile_node
  node_keeps constant token text value args f g all found kf kg kall kfound =
      constant_keeps token text value
  node_keeps variable token text value args f g all found kf kg kall kfound =
      variable_keeps text args f g kf kg
  node_keeps operator token text value args f g all found kf kg kall kfound =
      operator_keeps token args f g kf kg
  node_keeps function_call token text value args f g all found kf kg kall kfound =
      seq all _ kall (emit_known_keeps (function_opcode token args))
  node_keeps expression token text value args f g all found kf kg kall kfound =
      wrapper_keeps args f all found kf kall kfound
  node_keeps statement token text value args f g all found kf kg kall kfound =
      push_number_keeps (num h 0)
  node_keeps assignment token text value args f g all found kf kg kall kfound =
      push_number_keeps (num h 0)

mutual
  unfolding compile_expression KeepsFound

  pub expression_keeps : {h : Host} (n : ParseNode h) → Keeps h (compile_expression n)
  expression_keeps {h} null = push_number_keeps (num h 0)
  expression_keeps (node type token text value line kids) =
      node_keeps type token text value (count kids) _ _ _ (first_operator kids) (child_keeps kids 0)
        (child_keeps kids 1) (all_keeps kids) (first_operator_keeps kids)

  pub child_keeps : {h : Host} (kids : Children h) (n : ℕ) → Keeps h (compile_child kids n)
  child_keeps nil n = stuck
  child_keeps (cons c kids) zero = expression_keeps c
  child_keeps (cons c kids) (suc n) = child_keeps kids n

  all_keeps : {h : Host} (kids : Children h) → Keeps h (compile_all kids)
  all_keeps nil = done
  all_keeps (cons c kids) = seq _ _ (expression_keeps c) (all_keeps kids)

  first_operator_keeps : {h : Host} (kids : Children h) → KeepsFound (first_operator kids)
  first_operator_keeps nil = tt
  first_operator_keeps (cons c kids) =
      found_keeps (is_type operator c) (compile_expression c) (first_operator kids)
        (expression_keeps c) (first_operator_keeps kids)
