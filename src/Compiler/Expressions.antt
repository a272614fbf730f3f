-- ===== src/Compiler/Expressions.antt =====
-- src/compiler.c: `compile_expression`. The cases are functions of what the children compile to.
use basset_lang.Prelude.{
  ℕ, zero, suc, Bool, true, false, ◌||◌, ltb, ◌==◌, Option, none, some, if◌then◌else◌, List, [],
  ◌∷◌,
}
use basset_lang.Host.{Host, Str}
use basset_lang.Bytecode.{Op}
use basset_lang.Tokens
use basset_lang.Vm.Stack.{num}
use basset_lang.Vm.Execute.{has_dollar}
use basset_lang.Compiler.Tree.{
  NodeType, statement, expression, variable, constant, operator, function_call, assignment,
  ParseNode, null, node, Children, nil, cons, count, is_type,
}
use basset_lang.Compiler.Emit.{
  Step, ◌>=>◌, skip, undefined, emit, push_number, push_text, slot_of, to_u16, get_var_type,
}

-- The opcode of a token, the first of the table that has it.
unfoldable pub opcode_of : List (ℕ × Op) → ℕ → Option Op
opcode_of [] token = none
opcode_of ((t, op) ∷ table) token = if token == t then some op else opcode_of table token

abbrev pub binary_table : List (ℕ × Op)
binary_table =
    (Tokens.tok_cplus, Op.add)
    ∷ (Tokens.tok_cminus, Op.sub)
    ∷ (Tokens.tok_cmul, Op.mul)
    ∷ (Tokens.tok_cdiv, Op.div)
    ∷ (Tokens.tok_cexp, Op.pow)
    ∷ (Tokens.tok_ceq, Op.eq)
    ∷ (Tokens.tok_cne, Op.ne)
    ∷ (Tokens.tok_clt, Op.lt)
    ∷ (Tokens.tok_cle, Op.le)
    ∷ (Tokens.tok_cgt, Op.gt)
    ∷ (Tokens.tok_cge, Op.ge)
    ∷ (Tokens.tok_cand, Op.and)
    ∷ (Tokens.tok_cor, Op.or)
    ∷ []

-- The functions, MID$ left out.
abbrev pub function_table : List (ℕ × Op)
function_table =
    (Tokens.tok_csin, Op.func_sin)
    ∷ (Tokens.tok_ccos, Op.func_cos)
    ∷ (Tokens.tok_catn, Op.func_atn)
    ∷ (Tokens.tok_cexp_f, Op.func_exp)
    ∷ (Tokens.tok_clog, Op.func_log)
    ∷ (Tokens.tok_cclog, Op.func_clog)
    ∷ (Tokens.tok_csqr, Op.func_sqr)
    ∷ (Tokens.tok_cabs, Op.func_abs)
    ∷ (Tokens.tok_cint, Op.func_int)
    ∷ (Tokens.tok_crnd, Op.func_rnd)
    ∷ (Tokens.tok_csgn, Op.func_sgn)
    ∷ (Tokens.tok_cpeek, Op.func_peek)
    ∷ (Tokens.tok_cleft, Op.str_left)
    ∷ (Tokens.tok_cright, Op.str_right)
    ∷ (Tokens.tok_clen, Op.str_len)
    ∷ (Tokens.tok_cchr, Op.str_chr)
    ∷ (Tokens.tok_casc, Op.str_asc)
    ∷ (Tokens.tok_cstr, Op.str_str)
    ∷ (Tokens.tok_cval, Op.str_val)
    ∷ (Tokens.tok_cerr, Op.fn_err)
    ∷ (Tokens.tok_ctab, Op.tab_func)
    ∷ []

unfoldable pub function_opcode : ℕ → ℕ → Option Op
unfolding opcode_of
function_opcode token args =
    if token == Tokens.tok_cmid
    then some (if args == 2 then Op.str_mid_2 else Op.str_mid)
    else opcode_of function_table token

unfoldable pub unary_opcode : ℕ → Option Op
unary_opcode token =
    if token == Tokens.tok_cminus || token == Tokens.tok_cuminus
    then some Op.neg
    else if token == Tokens.tok_cnot
    then some Op.not
    else none

abbrev pub array_get : Bool → Bool → Op
array_get is_string two_d =
    if is_string
    then (if two_d then Op.str_array_get_2d else Op.str_array_get_1d)
    else if two_d
    then Op.array_get_2d
    else Op.array_get_1d

module _ {h : Host} where
  unfoldable pub emit_known : Option Op → Step h
  unfolding emit
  emit_known none cs = some cs
  emit_known (some op) cs = emit op 0 cs

  unfoldable pub compile_constant : ℕ → Option Str → h.Double → Step h
  compile_constant token text value =
      if token == Tokens.tok_string
      then elim text as (λ _. Step h) [ none ↦ undefined | some str ↦ push_text str ]
      else push_number value

  -- A variable with no index, with one or with more.
  unfoldable pub compile_variable : Option Str → ℕ → Step h → Step h → Step h
  compile_variable none args first second cs = none
  compile_variable (some name) args first second cs₀ =
      let (slot, cs) = slot_of name (get_var_type name) cs₀ in
      let is_string = has_dollar name in
      let simple = emit (if is_string then Op.str_push_var else Op.push_var) (to_u16 slot) in
      let one = first >=> emit (array_get is_string false) (to_u16 slot) in
      let two = first >=> second >=> emit (array_get is_string true) (to_u16 slot) in
      if args == 0 then simple cs else if args == 1 then one cs else two cs

  unfoldable pub compile_operator : ℕ → ℕ → Step h → Step h → Step h
  unfolding emit_known
  compile_operator token args first second =
      if ltb 1 args
      then first >=> second >=> emit_known (opcode_of binary_table token)
      else if args == 1
      then first >=> emit_known (unary_opcode token)
      else skip

  -- An expression node: its only child, zero, or its first operator, or all its children.
  unfoldable pub compile_wrapper : ℕ → Step h → Step h → Option (Step h) → Step h
  compile_wrapper args first all found =
      if args == 1
      then first
      else if args == 0
      then push_number (num h 0)
      else elim found as (λ _. Step h) [ none ↦ all | some step ↦ step ]

  unfoldable pub compile_node :
      NodeType → ℕ → Option Str → h.Double → ℕ → Step h → Step h → Step h → Option (Step h) → Step h
  unfolding compile_constant compile_variable compile_operator compile_wrapper emit_known
  compile_node constant token text value args first second all found =
      compile_constant token text value
  compile_node variable token text value args first second all found =
      compile_variable text args first second
  compile_node operator token text value args first second all found =
      compile_operator token args first second
  compile_node function_call token text value args first second all found =
      all >=> emit_known (function_opcode token args)
  compile_node expression token text value args first second all found =
      compile_wrapper args first all found
  compile_node statement token text value args first second all found = push_number (num h 0)
  compile_node assignment token text value args first second all found = push_number (num h 0)

unfoldable mutual
  unfolding compile_node

  pub compile_expression : {h : Host} → ParseNode h → Step h
  compile_expression {h} null = push_number (num h 0)
  compile_expression (node type token text value line kids) =
      compile_node type token text value (count kids) (compile_child kids 0) (compile_child kids 1)
        (compile_all kids) (first_operator kids)

  -- The n-th child.
  pub compile_child : {h : Host} → Children h → ℕ → Step h
  compile_child nil n = undefined
  compile_child (cons c kids) zero = compile_expression c
  compile_child (cons c kids) (suc n) = compile_child kids n

  pub compile_all : {h : Host} → Children h → Step h
  compile_all nil = skip
  compile_all (cons c kids) = compile_expression c >=> compile_all kids

  -- The first child that is an operator.
  pub first_operator : {h : Host} → Children h → Option (Step h)
  first_operator nil = none
  first_operator (cons c kids) =
      if is_type operator c then some (compile_expression c) else first_operator kids
