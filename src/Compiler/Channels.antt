-- ===== src/Compiler/Channels.antt =====
-- src/compiler.c: the statements on channels, POKE, RESTORE and RANDOMIZE.
use basset_lang.Prelude.{Bool, false, ◌&&◌, ltb, ◌==◌, Option, some, if◌then◌else◌, ◌>>=◌}
use basset_lang.Host.{Host, Str}
use basset_lang.Bytecode.{Op}
use basset_lang.Compiler.Tree.{
  expression, ParseNode, Children, count, count_of, is_type, unwrap, child, kids_or_nil, token_of,
}
use basset_lang.Compiler.Emit.{
  Step, ◌>=>◌, emit, emit_on, require, get_var_type, deref, with_child, with_name, slot_of, to_u16,
}
use basset_lang.Compiler.Expressions.{compile_child}
use basset_lang.Compiler.Loops.{end_token}

module _ {h : Host} where
  -- The number popped is stored in the variable, which is below wrappers.
  unfoldable pub store_in : ParseNode h → Step h
  unfolding with_name emit_on
  store_in var = with_name (unwrap var) (λ name. emit_on Op.pop_var name (get_var_type name))

  unfoldable pub compile_open_stmt : Children h → Step h
  unfolding emit
  compile_open_stmt kids = require 7 kids (
      compile_child kids 1
      >=> compile_child kids 3
      >=> compile_child kids 5
      >=> compile_child kids 7
      >=> emit Op.open_file 0)

  -- With no channel the constant of index 0 is the channel.
  unfoldable pub compile_close_stmt : Children h → Step h
  unfolding emit
  compile_close_stmt kids =
      (if ltb 1 (count kids) then compile_child kids 1 else emit Op.push_const 0)
      >=> emit Op.close 0

  unfoldable pub compile_put_stmt : Children h → Step h
  unfolding emit
  compile_put_stmt kids =
      require 3 kids (compile_child kids 1 >=> compile_child kids 3 >=> emit Op.put 0)

  unfoldable pub into_variable : Op → Children h → Step h
  unfolding with_child store_in emit
  into_variable op kids =
      require 3 kids
        (with_child kids 3 (λ var. compile_child kids 1 >=> emit op 0 >=> store_in var))

  unfoldable pub compile_get_stmt : Children h → Step h
  unfolding into_variable
  compile_get_stmt = into_variable Op.get

  unfoldable pub compile_status_stmt : Children h → Step h
  unfolding into_variable
  compile_status_stmt = into_variable Op.status

  -- Both variables get their slots, the sector's first; then the byte is stored, and the sector.
  unfoldable pub store_both : Str → Str → Step h
  unfolding slot_of emit
  store_both sector byte cs₀ =
      let (sec_slot, cs₁) = slot_of sector (get_var_type sector) cs₀ in
      let (byte_slot, cs₂) = slot_of byte (get_var_type byte) cs₁ in
      (emit Op.pop_var (to_u16 byte_slot) >=> emit Op.pop_var (to_u16 sec_slot)) cs₂

  unfoldable pub compile_note_stmt : Children h → Step h
  unfolding with_child with_name store_both emit
  compile_note_stmt kids = require 5 kids (
      with_child kids 3 (λ sec_var. with_child kids 5 (λ byte_var.
        compile_child kids 1
        >=> emit Op.note 0
        >=> with_name (unwrap sec_var)
            (λ sector. with_name (unwrap byte_var) (λ byte. store_both sector byte)))))

  unfoldable pub compile_point_stmt : Children h → Step h
  unfolding emit
  compile_point_stmt kids =
      require 5 kids
        (compile_child kids 1 >=> compile_child kids 3 >=> compile_child kids 5 >=> emit Op.point 0)

  unfoldable pub compile_xio_stmt : Children h → Step h
  unfolding emit
  compile_xio_stmt kids = require 10 kids (
      compile_child kids 0
      >=> compile_child kids 3
      >=> compile_child kids 5
      >=> compile_child kids 7
      >=> compile_child kids 9
      >=> emit Op.xio 0)

  unfoldable pub compile_poke_stmt : Children h → Step h
  unfolding emit
  compile_poke_stmt kids =
      require 3 kids (compile_child kids 0 >=> compile_child kids 2 >=> emit Op.poke 0)

  unfoldable pub compile_restore_stmt : Children h → Step h
  unfolding emit
  compile_restore_stmt kids =
      if ltb 0 (count kids)
      then compile_child kids 0 >=> emit Op.restore_line 0
      else emit Op.restore 0

  -- An argument that is an expression with one child, the end of the statement, is an error, which is
  -- only reported.
  unfoldable pub no_argument : ParseNode h → Option Bool
  unfolding kids_or_nil child token_of
  no_argument arg =
      let ends =
        child (kids_or_nil arg) 0 >>= λ c. token_of c >>= λ token. some (end_token token) in
      if is_type expression arg && count_of arg == 1 then ends else some false

  unfoldable pub compile_randomize_stmt : Children h → Step h
  unfolding with_child deref no_argument emit
  compile_randomize_stmt kids = require 1 kids (
      with_child kids 0 (λ arg. deref arg (λ cs. no_argument arg >>= λ missing.
      if missing then some cs else (compile_child kids 0 >=> emit Op.randomize 0) cs)))
