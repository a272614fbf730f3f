-- ===== src/Compiler/Storage.antt =====
-- src/compiler.c: assignments, to variables and to elements of arrays.
use basset_lang.Prelude.{Bool, true, false, not, ◌&&◌, ltb, ◌==◌, Option, none, some, if◌then◌else◌}
use basset_lang.Host.{Host, Str}
use basset_lang.Bytecode.{Op}
use basset_lang.Program.{VarType}
use basset_lang.Vm.Execute.{has_dollar, is_var_string}
use basset_lang.Compiler.Tree.{
  NodeType, expression, variable, constant, ParseNode, null, node, Children, nil, cons, same_type,
  is_type, count_of, child_or_null, kids_or_nil, unwrap,
}
use basset_lang.Compiler.Emit.{
  Step, ◌>=>◌, skip, emit, require, slot_of, to_u16, get_var_type, deref, with_child, with_name,
}
use basset_lang.Compiler.Expressions.{compile_expression, compile_child}

-- `p ? p : q`
abbrev pub or_else {ℓ} : {A : Type ℓ} → Option A → Option A → Option A
or_else none q = q
or_else (some a) q = some a

unfoldable mutual
  -- The first node of the type, from the root down and from left to right.
  pub find_leaf_node : {h : Host} → NodeType → ParseNode h → Option (ParseNode h)
  find_leaf_node wanted null = none
  find_leaf_node wanted (node type token text value line kids) =
      if same_type wanted type
      then some (node type token text value line kids)
      else find_leaf wanted kids

  pub find_leaf : {h : Host} → NodeType → Children h → Option (ParseNode h)
  find_leaf wanted nil = none
  find_leaf wanted (cons c kids) = or_else (find_leaf_node wanted c) (find_leaf wanted kids)

abbrev pub text_op : Str → Op → Op → Op
text_op name string_op number_op = if has_dollar name then string_op else number_op

module _ {h : Host} where
  -- The variable gets a slot, then the code runs, then the instruction on the slot.
  unfoldable pub on_slot : Str → VarType → Step h → Op → Step h
  unfolding slot_of emit
  on_slot name type body op cs₀ =
      let (slot, cs) = slot_of name type cs₀ in (body >=> emit op (to_u16 slot)) cs

  unfoldable pub compile_constant_or : ParseNode h → Step h
  unfolding find_leaf_node
  compile_constant_or n = elim (find_leaf_node constant n) as (λ _. Step h) [
    | none ↦ compile_expression n
    | some leaf ↦ compile_expression leaf
  ]

  unfoldable pub node_of : Option (ParseNode h) → ParseNode h
  node_of none = null
  node_of (some n) = n

  unfoldable pub compile_assignment : Children h → Step h
  unfolding with_child with_name find_leaf_node compile_constant_or on_slot node_of
  compile_assignment kids = require 2 kids (
      with_child kids 0 (λ var_node. with_child kids 1 (λ expr_node.
        with_name (node_of (find_leaf_node variable var_node))
          (λ name. on_slot name (get_var_type name) (compile_constant_or expr_node) Op.pop_var))))

  -- The subscripts of `A(I)` and `A(I, J)`; null where there is none.
  unfoldable pub first_subscript : ParseNode h → ParseNode h
  unfolding child_or_null kids_or_nil
  first_subscript subs = child_or_null (kids_or_nil subs) 1

  unfoldable pub second_subscript : ParseNode h → ParseNode h
  unfolding child_or_null kids_or_nil
  second_subscript subs =
      let middle = child_or_null (kids_or_nil subs) 2 in
      if ltb 3 (count_of subs) && is_type expression middle
      then child_or_null (kids_or_nil middle) 1
      else null

  -- The name of a node that is a variable.
  unfoldable pub variable_name : ParseNode h → Option Str
  variable_name (node variable token text value line kids) = text
  variable_name n = none

  abbrev pub is_null : ParseNode h → Bool
  is_null null = true
  is_null _ = false

  unfoldable pub let_array : Str → ParseNode h → ParseNode h → Step h → Step h
  unfolding on_slot emit
  let_array name sub₁ sub₂ value =
      let op₁ = text_op name Op.str_array_set_1d Op.array_set_1d in
      let op₂ = text_op name Op.str_array_set_2d Op.array_set_2d in
      let code₁ = compile_expression sub₁ >=> value in
      let code₂ = compile_expression sub₁ >=> compile_expression sub₂ >=> value in
      if is_null sub₂
      then on_slot name (get_var_type name) code₁ op₁
      else on_slot name (get_var_type name) code₂ op₂

  unfoldable pub let_simple : ParseNode h → Step h → Step h
  unfolding variable_name on_slot
  let_simple var_expr value = elim (variable_name (unwrap var_expr)) as (λ _. Step h) [
    | none ↦ skip
    | some name ↦
        on_slot name (get_var_type name) value
          (if is_var_string (get_var_type name) then Op.str_pop_var else Op.pop_var)
  ]

  -- The name of the array that is assigned to, where the left side is one with a subscript.
  unfoldable pub array_name : ParseNode h → Option Str
  unfolding variable_name first_subscript child_or_null kids_or_nil unwrap
  array_name var_expr =
      let subs = child_or_null (kids_or_nil var_expr) 1 in
      let name = variable_name (unwrap (child_or_null (kids_or_nil var_expr) 0)) in
      if is_type expression var_expr
        && count_of var_expr == 2
        && not (is_null (first_subscript subs))
      then name
      else none

  unfoldable pub let_target : ParseNode h → Step h → Step h
  unfolding array_name let_array let_simple first_subscript second_subscript child_or_null
      kids_or_nil
  let_target var_expr value =
      let subs = child_or_null (kids_or_nil var_expr) 1 in
      elim (array_name var_expr) as (λ _. Step h) [
        | none ↦ let_simple var_expr value
        | some name ↦ let_array name (first_subscript subs) (second_subscript subs) value
      ]

  unfoldable pub compile_let_stmt : Children h → Step h
  unfolding with_child deref let_target
  compile_let_stmt kids =
      require 3 kids (
        with_child kids 0 (λ var_expr. deref var_expr (let_target var_expr (compile_child kids 2))))
