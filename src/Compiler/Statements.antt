-- ===== src/Compiler/Statements.antt =====
-- src/compiler.c: the table of the statement compilers, and `compile_statement`.
use basset_lang.Prelude.{ℕ, zero, suc, ◌==◌, Option, none, some, List, [], ◌∷◌, if◌then◌else◌}
use basset_lang.Host.{Host}
use basset_lang.Bytecode.{Op}
use basset_lang.Tokens
use basset_lang.Compiler.Tree.{
  NodeType, statement, operator, ParseNode, null, node, Children, nil, cons,
}
use basset_lang.Compiler.Emit.{Step, ◌>=>◌, skip, emit}
use basset_lang.Compiler.Storage.{compile_assignment, compile_let_stmt}
use basset_lang.Compiler.Items.{compile_dim, compile_data, compile_read}
use basset_lang.Compiler.Loops.{compile_for, compile_next}
use basset_lang.Compiler.Output.{compile_print, compile_input}
use basset_lang.Compiler.Branches.{
  compile_goto, compile_gosub, compile_trap_stmt, compile_on, compile_item, compile_if_then,
}
use basset_lang.Compiler.Channels.{
  compile_open_stmt, compile_close_stmt, compile_put_stmt, compile_get_stmt, compile_note_stmt,
  compile_point_stmt, compile_status_stmt, compile_xio_stmt, compile_poke_stmt,
  compile_restore_stmt, compile_randomize_stmt,
}

-- The statement compilers: `single` emits one opcode, and `noop` nothing.
pub data StatementCompiler : Type 0 where
  let_stmt print input if_then goto gosub on for_stmt next trap_stmt xio_stmt dim data_stmt read :
      StatementCompiler
  restore_stmt open_stmt close_stmt put_stmt get_stmt note_stmt point_stmt status_stmt :
      StatementCompiler
  poke_stmt randomize_stmt noop : StatementCompiler
  single : Op → StatementCompiler

abbrev pub compilation_table : List (ℕ × StatementCompiler)
compilation_table =
    (Tokens.tok_ident, let_stmt)
    ∷ (Tokens.tok_let, let_stmt)
    ∷ (Tokens.tok_print, print)
    ∷ (Tokens.tok_question, print)
    ∷ (Tokens.tok_input, input)
    ∷ (Tokens.tok_if, if_then)
    ∷ (Tokens.tok_goto, goto)
    ∷ (Tokens.tok_cgto, goto)
    ∷ (Tokens.tok_gosub_s, gosub)
    ∷ (Tokens.tok_cgs, gosub)
    ∷ (Tokens.tok_on, on)
    ∷ (Tokens.tok_return, single Op.return)
    ∷ (Tokens.tok_clr, single Op.clr)
    ∷ (Tokens.tok_clear, noop)
    ∷ (Tokens.tok_defint, noop)
    ∷ (Tokens.tok_deflng, noop)
    ∷ (Tokens.tok_defsng, noop)
    ∷ (Tokens.tok_defdbl, noop)
    ∷ (Tokens.tok_defstr, noop)
    ∷ (Tokens.tok_cls, noop)
    ∷ (Tokens.tok_pop, single Op.pop_gosub)
    ∷ (Tokens.tok_for, for_stmt)
    ∷ (Tokens.tok_next, next)
    ∷ (Tokens.tok_end, single Op.end)
    ∷ (Tokens.tok_deg, single Op.deg)
    ∷ (Tokens.tok_rad, single Op.rad)
    ∷ (Tokens.tok_randomize, randomize_stmt)
    ∷ (Tokens.tok_trap, trap_stmt)
    ∷ (Tokens.tok_xio, xio_stmt)
    ∷ (Tokens.tok_stop, single Op.stop)
    ∷ (Tokens.tok_dim, dim)
    ∷ (Tokens.tok_data, data_stmt)
    ∷ (Tokens.tok_read, read)
    ∷ (Tokens.tok_restore, restore_stmt)
    ∷ (Tokens.tok_open, open_stmt)
    ∷ (Tokens.tok_close, close_stmt)
    ∷ (Tokens.tok_put, put_stmt)
    ∷ (Tokens.tok_get, get_stmt)
    ∷ (Tokens.tok_note, note_stmt)
    ∷ (Tokens.tok_point, point_stmt)
    ∷ (Tokens.tok_status, status_stmt)
    ∷ (Tokens.tok_poke, poke_stmt)
    ∷ []

unfoldable pub compiler_of : List (ℕ × StatementCompiler) → ℕ → Option StatementCompiler
compiler_of [] token = none
compiler_of ((t, compiler) ∷ table) token =
    if t == token then some compiler else compiler_of table token

module _ {h : Host} where
  -- The children of the statement, and the statements inside IF.
  unfoldable pub compile_by : StatementCompiler → Children h → Step h → Step h → Step h
  unfolding emit
  compile_by let_stmt kids then_items else_items = compile_let_stmt kids
  compile_by print kids then_items else_items = compile_print kids
  compile_by input kids then_items else_items = compile_input kids
  compile_by if_then kids then_items else_items = compile_if_then kids then_items else_items
  compile_by goto kids then_items else_items = compile_goto kids
  compile_by gosub kids then_items else_items = compile_gosub kids
  compile_by on kids then_items else_items = compile_on kids
  compile_by for_stmt kids then_items else_items = compile_for kids
  compile_by next kids then_items else_items = compile_next kids
  compile_by trap_stmt kids then_items else_items = compile_trap_stmt kids
  compile_by xio_stmt kids then_items else_items = compile_xio_stmt kids
  compile_by dim kids then_items else_items = compile_dim kids
  compile_by data_stmt kids then_items else_items = compile_data kids
  compile_by read kids then_items else_items = compile_read kids
  compile_by restore_stmt kids then_items else_items = compile_restore_stmt kids
  compile_by open_stmt kids then_items else_items = compile_open_stmt kids
  compile_by close_stmt kids then_items else_items = compile_close_stmt kids
  compile_by put_stmt kids then_items else_items = compile_put_stmt kids
  compile_by get_stmt kids then_items else_items = compile_get_stmt kids
  compile_by note_stmt kids then_items else_items = compile_note_stmt kids
  compile_by point_stmt kids then_items else_items = compile_point_stmt kids
  compile_by status_stmt kids then_items else_items = compile_status_stmt kids
  compile_by poke_stmt kids then_items else_items = compile_poke_stmt kids
  compile_by randomize_stmt kids then_items else_items = compile_randomize_stmt kids
  compile_by noop kids then_items else_items = skip
  compile_by (single op) kids then_items else_items = emit op 0

  -- A statement by the table, an operator `=` as an assignment, and nothing for any other node.
  unfoldable pub statement_step : NodeType → ℕ → Children h → Step h → Step h → Step h
  unfolding compiler_of compile_by
  statement_step statement token kids then_items else_items =
      elim (compiler_of compilation_table token) as (λ _. Step h) [
        | none ↦ skip
        | some compiler ↦ compile_by compiler kids then_items else_items
      ]
  statement_step operator token kids then_items else_items =
      if token == Tokens.tok_ceq then compile_assignment kids else skip
  statement_step _ token kids then_items else_items = skip

unfoldable mutual
  unfolding statement_step compile_item

  pub compile_statement : {h : Host} → ParseNode h → Step h
  compile_statement null = skip
  compile_statement (node type token text value line kids) =
      statement_step type token kids (compile_body kids 2) (compile_else_body kids 3)

  -- The children after THEN or ELSE.
  pub compile_items : {h : Host} → Children h → Step h
  compile_items nil = skip
  compile_items (cons c kids) = compile_item c (compile_statement c) >=> compile_items kids

  -- The children of the n-th child.
  pub compile_body : {h : Host} → Children h → ℕ → Step h
  compile_body nil n = skip
  compile_body (cons null kids) zero = skip
  compile_body (cons (node type token text value line items) kids) zero = compile_items items
  compile_body (cons c kids) (suc n) = compile_body kids n

  -- The children of the second child of the n-th child.
  pub compile_else_body : {h : Host} → Children h → ℕ → Step h
  compile_else_body nil n = skip
  compile_else_body (cons null kids) zero = skip
  compile_else_body (cons (node type token text value line items) kids) zero = compile_body items 1
  compile_else_body (cons c kids) (suc n) = compile_else_body kids n
