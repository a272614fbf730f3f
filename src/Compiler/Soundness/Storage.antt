-- ===== src/Compiler/Soundness/Storage.antt =====
-- Assignments of src/compiler.c keep the invariant of the compiler.
use basset_lang.Prelude.{Option, none, some, if◌then◌else◌}
use basset_lang.Host.{Host, Str}
use basset_lang.Bytecode.{Op}
use basset_lang.Program.{VarType}
use basset_lang.Vm.Execute.{is_var_string}
use basset_lang.Compiler.Tree.{variable, constant, ParseNode, Children, unwrap}
use basset_lang.Compiler.Emit.{Step, ◌>=>◌, skip, emit, to_u16, get_var_type}
use basset_lang.Compiler.Expressions.{compile_expression}
use basset_lang.Compiler.Storage.{
  find_leaf_node, on_slot, compile_constant_or, compile_assignment, let_array, let_simple,
  let_target, array_name, variable_name, compile_let_stmt, is_null, node_of,
}
use basset_lang.Compiler.Items.{}
use basset_lang.Compiler.Loops.{}
use basset_lang.Compiler.Soundness.{Keeps, seq, done, branch, required}
use basset_lang.Compiler.Soundness.Steps.{
  emits, with_slot_keeps, deref_keeps, with_child_keeps, with_name_keeps,
}
use basset_lang.Compiler.Soundness.Expressions.{expression_keeps, child_keeps}

module _ {h : Host} where
  pub on_slot_keeps :
      (name : Str) (type : VarType) (f : Step h) (op : Op)
      → Keeps h f
      → Keeps h (on_slot name type f op)
  unfolding on_slot
  on_slot_keeps name type f op k cs s =
      with_slot_keeps name type cs (λ slot. f >=> emit op (to_u16 slot)) s
        (λ slot. seq f (emit op (to_u16 slot)) k (emits op (to_u16 slot)))

  constant_or_keeps : (n : ParseNode h) → Keeps h (compile_constant_or n)
  unfolding compile_constant_or
  constant_or_keeps n = go (find_leaf_node constant n)
    where
      go :
          (leaf : Option (ParseNode h))
          → Keeps h (elim leaf as (λ _. Step h) [
            | none ↦ compile_expression n
            | some leaf ↦ compile_expression leaf
          ])
      go none = expression_keeps n
      go (some leaf) = expression_keeps leaf

  pub assignment_keeps : (kids : Children h) → Keeps h (compile_assignment kids)
  unfolding compile_assignment
  assignment_keeps kids = required 2 kids _ (
      with_child_keeps kids 0 _ (λ var_node. with_child_keeps kids 1 _ (λ expr_node.
        with_name_keeps (node_of (find_leaf_node variable var_node)) _ (λ name.
          on_slot_keeps name (get_var_type name) _ Op.pop_var (constant_or_keeps expr_node)))))

  let_array_keeps :
      (name : Str) (sub₁ sub₂ : ParseNode h) (f : Step h)
      → Keeps h f
      → Keeps h (let_array name sub₁ sub₂ f)
  unfolding let_array
  let_array_keeps name sub₁ sub₂ f k =
      branch (is_null sub₂) _ _
        (on_slot_keeps name (get_var_type name) _ _ (seq _ f (expression_keeps sub₁) k))
        (on_slot_keeps name (get_var_type name) _ _ (
          seq _ (compile_expression sub₂ >=> f) (expression_keeps sub₁)
            (seq _ f (expression_keeps sub₂) k)))

  let_simple_keeps : (n : ParseNode h) (f : Step h) → Keeps h f → Keeps h (let_simple n f)
  unfolding let_simple
  let_simple_keeps n f k = go (variable_name (unwrap n))
    where
      go :
          (name : Option Str)
          → Keeps h (elim name as (λ _. Step h) [
            | none ↦ skip
            | some name ↦
                on_slot name
                  (get_var_type name)
                  f
                  (if is_var_string (get_var_type name) then Op.str_pop_var else Op.pop_var)
          ])
      go none = done
      go (some name) = on_slot_keeps name (get_var_type name) f _ k

  let_target_keeps : (n : ParseNode h) (f : Step h) → Keeps h f → Keeps h (let_target n f)
  unfolding let_target
  let_target_keeps n f k = go (array_name n) _ _
    where
      go :
          (name : Option Str) (sub₁ sub₂ : ParseNode h)
          → Keeps h (elim name as (λ _. Step h) [
            | none ↦ let_simple n f
            | some name ↦ let_array name sub₁ sub₂ f
          ])
      go none sub₁ sub₂ = let_simple_keeps n f k
      go (some name) sub₁ sub₂ = let_array_keeps name sub₁ sub₂ f k

  pub let_keeps : (kids : Children h) → Keeps h (compile_let_stmt kids)
  unfolding compile_let_stmt
  let_keeps kids =
      required 3 kids _ (
        with_child_keeps kids 0 _
          (λ n. deref_keeps n _ (let_target_keeps n _ (child_keeps kids 2))))
