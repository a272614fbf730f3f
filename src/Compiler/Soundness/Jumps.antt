-- ===== src/Compiler/Soundness/Jumps.antt =====
-- GOTO, GOSUB, TRAP, ON and IF of src/compiler.c keep the invariant of the compiler.
use basset_lang.Prelude.{ℕ, ◌%◌, ◌^◌, Bool, ltb, List, [], ◌∷◌, length, if◌then◌else◌, ◌&&◌}
use basset_lang.Host.{Host}
use basset_lang.Bytecode.{Op}
use basset_lang.Tokens
use basset_lang.Compiler.{JumpType, jump_gosub, jump_absolute}
use basset_lang.Compiler.Tree.{
  statement, expression, constant, ParseNode, Children, is_type, is_node, count_of, child_or_null,
}
use basset_lang.Compiler.Emit.{Step, emit}
use basset_lang.Compiler.Branches.{
  to_target, compile_goto, compile_gosub, compile_trap_stmt, emit_targets, emit_on_table,
  compile_on, compile_item, compile_then, compile_else, around, compile_if_then, on_gosub, on_lines,
}
use basset_lang.Compiler.Soundness.{Keeps, seq, done, branch, required}
use basset_lang.Compiler.Soundness.Steps.{
  emits, emit_jump_keeps, jump_to_keeps, deref_keeps, with_child_keeps, patch_here_keeps,
}
use basset_lang.Compiler.Soundness.Expressions.{expression_keeps, child_keeps}

module _ {h : Host} where
  to_target_keeps :
      (op computed : Op) (type : JumpType) (n : ParseNode h)
      → Keeps h (to_target op computed type n)
  unfolding to_target
  to_target_keeps op computed type n = deref_keeps n _ (
      branch (is_type constant n) _ _ (jump_to_keeps op type n)
        (seq _ _ (expression_keeps n) (emits computed 0)))

  pub goto_keeps : (kids : Children h) → Keeps h (compile_goto kids)
  unfolding compile_goto
  goto_keeps kids =
      required 1 kids _
        (with_child_keeps kids 0 _ (to_target_keeps Op.jump Op.jump_line jump_absolute))

  pub gosub_keeps : (kids : Children h) → Keeps h (compile_gosub kids)
  unfolding compile_gosub
  gosub_keeps kids =
      required 1 kids _
        (with_child_keeps kids 0 _ (to_target_keeps Op.gosub Op.gosub_line jump_gosub))

  pub trap_keeps : (kids : Children h) → Keeps h (compile_trap_stmt kids)
  unfolding compile_trap_stmt
  trap_keeps kids = required 1 kids _ (
      with_child_keeps kids 0 _ (λ n.
        deref_keeps n _
          (branch (is_type constant n) _ _ (jump_to_keeps Op.trap jump_absolute n) done)))

  targets_keep : (lines : List ℕ) (type : JumpType) → Keeps h (emit_targets lines type)
  unfolding emit_targets
  targets_keep [] type = done
  targets_keep (line ∷ lines) type =
      seq _ _ (emit_jump_keeps Op.nop (line % 2 ^ 16) type) (targets_keep lines type)

  on_table_keeps : (is_gosub : Bool) (lines : List ℕ) → Keeps h (emit_on_table is_gosub lines)
  unfolding emit_on_table
  on_table_keeps is_gosub lines =
      let op = if is_gosub then Op.on_gosub else Op.on_goto in
      let type = if is_gosub then jump_gosub else jump_absolute in
      seq (emit op (length lines % 2 ^ 16)) (emit_targets lines type)
        (emits op (length lines % 2 ^ 16)) (targets_keep lines type)

  pub on_keeps : (kids : Children h) → Keeps h (compile_on kids)
  unfolding compile_on
  on_keeps kids = required 3 kids _ (
      with_child_keeps kids 1 _ (λ on1. with_child_keeps kids 2 _ (λ expl.
        branch (is_type expression expl && ltb 0 (count_of expl)) _ _
          (seq _ _ (child_keeps kids 0) (on_table_keeps (on_gosub on1) (on_lines expl))) done)))

  pub item_keeps : (c : ParseNode h) (f : Step h) → Keeps h f → Keeps h (compile_item c f)
  unfolding compile_item
  item_keeps c f k = deref_keeps c _ (
      branch (is_type statement c) _ _ k (
        branch (is_type expression c) _ _ (expression_keeps c) (
          branch (is_node constant Tokens.tok_number c) _ _ (jump_to_keeps Op.jump jump_absolute c)
            done)))

  then_keeps : (n : ParseNode h) (f : Step h) → Keeps h f → Keeps h (compile_then n f)
  unfolding compile_then
  then_keeps n f k = branch (ltb 0 (count_of n)) _ _ k (
      branch (is_node constant Tokens.tok_number n) _ _ (jump_to_keeps Op.jump jump_absolute n)
        done)

  else_keeps : (n : ParseNode h) (f : Step h) → Keeps h f → Keeps h (compile_else n f)
  unfolding compile_else
  else_keeps n f k =
      branch (ltb 1 (count_of n)) _ _ (branch _ _ _ (jump_to_keeps Op.jump jump_absolute _) k) done

  around_keeps :
      (op : Op) (body : ℕ → Step h) → ((at : ℕ) → Keeps h (body at)) → Keeps h (around op body)
  unfolding around
  around_keeps op body k cs s =
      seq (emit op 0) (body (length cs.program.code)) (emits op 0) (k _) cs s

  pub if_keeps :
      (kids : Children h) (f g : Step h)
      → Keeps h f
      → Keeps h g
      → Keeps h (compile_if_then kids f g)
  unfolding compile_if_then
  if_keeps kids f g kf kg = required 3 kids _ (
      with_child_keeps kids 2 _ (λ then_part.
        let else_part = child_or_null kids 3 in
        seq _ _ (child_keeps kids 0) (
          around_keeps Op.jump_if_false _ (λ at. seq _ _ (then_keeps then_part f kf) (
            branch (ltb 0 (count_of else_part)) _ _
              (around_keeps Op.jump _ (λ at'.
                seq _ _ (patch_here_keeps at)
                  (seq _ _ (else_keeps else_part g kg) (patch_here_keeps at'))))
              (patch_here_keeps at))))))
