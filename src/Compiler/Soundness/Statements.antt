-- ===== src/Compiler/Soundness/Statements.antt =====
-- `compile_statement` of src/compiler.c keeps the invariant of the compiler.
use mathlib.Core.Path.{subst}
use basset_lang.Compiler.{CompilerState}
use basset_lang.Compiler.Fixups.{AreApart}
use basset_lang.Prelude.{◌≡◌, ◌≤◌, ◌^◌, false, length, ℕ, zero, suc, Option, none, some, ◌==◌}
use basset_lang.Host.{Host}
use basset_lang.Tokens
use basset_lang.Compiler.Tree.{
  NodeType, statement, expression, variable, constant, operator, function_call, assignment,
  ParseNode, null, node, Children, nil, cons,
}
use basset_lang.Compiler.Emit.{Step, skip}
use basset_lang.Compiler.Statements.{
  StatementCompiler, let_stmt, print, input, if_then, goto, gosub, on, for_stmt, next, trap_stmt,
  xio_stmt, dim, data_stmt, read, restore_stmt, open_stmt, close_stmt, put_stmt, get_stmt,
  note_stmt, point_stmt, status_stmt, poke_stmt, randomize_stmt, noop, single, compilation_table,
  compiler_of, compile_by, statement_step, compile_statement, compile_items, compile_body,
  compile_else_body,
}
use basset_lang.Compiler.Soundness.{IsSound, After, Keeps, seq, done, branch}
use basset_lang.Compiler.Soundness.Steps.{emits}
use basset_lang.Compiler.Soundness.Jumps.{
  goto_keeps, gosub_keeps, trap_keeps, on_keeps, item_keeps, if_keeps,
}
use basset_lang.Compiler.Soundness.Storage.{assignment_keeps, let_keeps}
use basset_lang.Compiler.Soundness.Items.{dim_keeps, data_keeps, read_keeps}
use basset_lang.Compiler.Soundness.Loops.{for_keeps, next_keeps}
use basset_lang.Compiler.Soundness.Output.{
  print_keeps, input_keeps, open_keeps, close_keeps, put_keeps, get_keeps, status_keeps, note_keeps,
  point_keeps, xio_keeps, poke_keeps, restore_keeps, randomize_keeps,
}

module _ {h : Host} where
  by_keeps :
      (c : StatementCompiler) (kids : Children h) (f g : Step h)
      → Keeps h f
      → Keeps h g
      → Keeps h (compile_by c kids f g)
  unfolding compile_by
  by_keeps let_stmt kids f g kf kg = let_keeps kids
  by_keeps print kids f g kf kg = print_keeps kids
  by_keeps input kids f g kf kg = input_keeps kids
  by_keeps if_then kids f g kf kg = if_keeps kids f g kf kg
  by_keeps goto kids f g kf kg = goto_keeps kids
  by_keeps gosub kids f g kf kg = gosub_keeps kids
  by_keeps on kids f g kf kg = on_keeps kids
  by_keeps for_stmt kids f g kf kg = for_keeps kids
  by_keeps next kids f g kf kg = next_keeps kids
  by_keeps trap_stmt kids f g kf kg = trap_keeps kids
  by_keeps xio_stmt kids f g kf kg = xio_keeps kids
  by_keeps dim kids f g kf kg = dim_keeps kids
  by_keeps data_stmt kids f g kf kg = data_keeps kids
  by_keeps read kids f g kf kg = read_keeps kids
  by_keeps restore_stmt kids f g kf kg = restore_keeps kids
  by_keeps open_stmt kids f g kf kg = open_keeps kids
  by_keeps close_stmt kids f g kf kg = close_keeps kids
  by_keeps put_stmt kids f g kf kg = put_keeps kids
  by_keeps get_stmt kids f g kf kg = get_keeps kids
  by_keeps note_stmt kids f g kf kg = note_keeps kids
  by_keeps point_stmt kids f g kf kg = point_keeps kids
  by_keeps status_stmt kids f g kf kg = status_keeps kids
  by_keeps poke_stmt kids f g kf kg = poke_keeps kids
  by_keeps randomize_stmt kids f g kf kg = randomize_keeps kids
  by_keeps noop kids f g kf kg = done
  by_keeps (single op) kids f g kf kg = emits op 0

  statement_step_keeps :
      (type : NodeType) (token : ℕ) (kids : Children h) (f g : Step h)
      → Keeps h f
      → Keeps h g
      → Keeps h (statement_step type token kids f g)
  unfolding statement_step
  statement_step_keeps statement token kids f g kf kg = go (compiler_of compilation_table token)
    where
      go :
          (found : Option StatementCompiler)
          → Keeps h (elim found as (λ _. Step h) [
            | none ↦ skip
            | some compiler ↦ compile_by compiler kids f g
          ])
      go none = done
      go (some c) = by_keeps c kids f g kf kg
  statement_step_keeps operator token kids f g kf kg =
      branch (token == Tokens.tok_ceq) _ _ (assignment_keeps kids) done
  statement_step_keeps expression token kids f g kf kg = done
  statement_step_keeps variable token kids f g kf kg = done
  statement_step_keeps constant token kids f g kf kg = done
  statement_step_keeps function_call token kids f g kf kg = done
  statement_step_keeps assignment token kids f g kf kg = done

mutual
  unfolding compile_statement

  pub statement_keeps : {h : Host} (n : ParseNode h) → Keeps h (compile_statement n)
  statement_keeps null = done
  statement_keeps (node type token text value line kids) =
      statement_step_keeps type token kids _ _ (body_keeps kids 2) (else_body_keeps kids 3)

  items_keep : {h : Host} (kids : Children h) → Keeps h (compile_items kids)
  items_keep nil = done
  items_keep (cons c kids) = seq _ _ (item_keeps c _ (statement_keeps c)) (items_keep kids)

  body_keeps : {h : Host} (kids : Children h) (n : ℕ) → Keeps h (compile_body kids n)
  body_keeps nil n = done
  body_keeps (cons null kids) zero = done
  body_keeps (cons (node type token text value line items) kids) zero = items_keep items
  body_keeps (cons null kids) (suc n) = body_keeps kids n
  body_keeps (cons (node type token text value line items) kids) (suc n) = body_keeps kids n

  else_body_keeps : {h : Host} (kids : Children h) (n : ℕ) → Keeps h (compile_else_body kids n)
  else_body_keeps nil n = done
  else_body_keeps (cons null kids) zero = done
  else_body_keeps (cons (node type token text value line items) kids) zero = body_keeps items 1
  else_body_keeps (cons null kids) (suc n) = else_body_keeps kids n
  else_body_keeps (cons (node type token text value line items) kids) (suc n) =
      else_body_keeps kids n

module _ {h : Host} where
  -- A statement that compiles, in a state with no error and with fixups of an instruction each, and whose
  -- code is of at most 2^32 instructions afterwards: the fixups are of an instruction each again, there is
  -- no error, and the code is no shorter.
  pub compile_statement-AreApart :
      (n : ParseNode h) (cs cs' : CompilerState h)
      → cs.has_error ≡ false
      → AreApart (length cs.program.code) cs.jump_fixups
      → compile_statement n cs ≡ some cs'
      → length cs'.program.code ≤ 2 ^ 32
      → AreApart (length cs'.program.code) cs'.jump_fixups
        × (cs'.has_error ≡ false)
        × (length cs.program.code ≤ length cs'.program.code)
  compile_statement-AreApart n cs cs' fine apart e small =
      let sound : IsSound cs = record { fine = fine; apart = λ _. apart } in
      let (after, le) : After (length cs.program.code) (some cs') =
        subst (After (length cs.program.code)) e (statement_keeps n cs sound) in
      (after.apart small, after.fine, le)
