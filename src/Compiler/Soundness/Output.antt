-- ===== src/Compiler/Soundness/Output.antt =====
-- PRINT, INPUT and the statements on channels of src/compiler.c keep the invariant of the compiler.
use basset_lang.Prelude.{
  arith, Bool, true, false, ltb, Option, none, some, if◌then◌else◌, ◌>>=◌, ◌&&◌, length,
}
use basset_lang.Host.{Host, Str}
use basset_lang.Bytecode.{Op}
use basset_lang.Tokens
use basset_lang.Compiler.{CompilerState}
use basset_lang.Compiler.Tree.{
  NodeType, statement, expression, variable, constant, operator, function_call, assignment,
  ParseNode, null, node, Children, nil, cons, count, is_node, unwrap,
}
use basset_lang.Compiler.Emit.{Step, ◌>=>◌, skip, emit, get_var_type, slot_of, to_u16}
use basset_lang.Compiler.Expressions.{compile_child}
use basset_lang.Compiler.Storage.{is_null}
use basset_lang.Compiler.Output.{
  prints_string, print_value, print_item, print_items, is_operand, compile_print, input_variable,
  find_input_variables, find_all_variables, find_prompt, emit_prompt, compile_input,
}
use basset_lang.Compiler.Channels.{
  store_in, compile_open_stmt, compile_close_stmt, compile_put_stmt, into_variable,
  compile_get_stmt, compile_status_stmt, store_both, compile_note_stmt, compile_point_stmt,
  compile_xio_stmt, compile_poke_stmt, compile_restore_stmt, no_argument, compile_randomize_stmt,
}
use basset_lang.Compiler.Soundness.{IsSound, After, Keeps, seq, done, branch, branch_at, required}
use basset_lang.Compiler.Soundness.Steps.{
  emit_then, emits, emit_on_keeps, with_slot_keeps, deref_keeps, with_child_keeps, with_name_keeps,
  compiler_add_string-IsSound, then_emit,
}
use basset_lang.Compiler.Soundness.Expressions.{expression_keeps, child_keeps}

module _ {h : Host} where
  print_value_keeps : (n : ParseNode h) → Keeps h (print_value n)
  unfolding print_value
  print_value_keeps n = seq _ _ (expression_keeps n) (λ cs s. go cs s (prints_string n))
    where
      go :
          (cs : CompilerState h)
          → IsSound cs
          → (b : Option Bool)
          → After
              (length cs.program.code)
              (b >>= λ is_string. emit (if is_string then Op.print_str else Op.print_num) 0 cs)
      go cs s none = tt
      go cs s (some b) = emits (if b then Op.print_str else Op.print_num) 0 cs s

  print_item_keeps :
      (n : ParseNode h) (t : Bool) (rest : Bool → Step h)
      → ((t : Bool) → Keeps h (rest t))
      → Keeps h (print_item n t rest)
  unfolding print_item
  print_item_keeps n t rest k = branch (is_null n) _ _ (k t) (
      branch (is_node operator Tokens.tok_csc n) _ _ (k true) (
        branch (is_node operator Tokens.tok_ccom n) _ _ (emit_then Op.print_tab 0 _ (k true)) (
          branch (is_node function_call Tokens.tok_ctab n) _ _
            (seq _ _ (expression_keeps n) (k true)) (seq _ _ (print_value_keeps n) (k false)))))

  print_items_keep : (kids : Children h) (t : Bool) → Keeps h (print_items kids t)
  unfolding print_items
  print_items_keep nil t = branch t _ _ done (emits Op.print_newline 0)
  print_items_keep (cons c kids) t = print_item_keeps c t _ (λ t'. print_items_keep kids t')

  pub print_keeps : (kids : Children h) → Keeps h (compile_print kids)
  unfolding compile_print
  print_keeps nil = print_items_keep nil false
  print_keeps (cons a nil) = print_items_keep (cons a nil) false
  print_keeps (cons a (cons b kids)) =
      branch (is_operand a && is_operand b) _ _
        (seq _ _ (expression_keeps a)
          (emit_then Op.set_print_channel 0 _ (print_items_keep (cons b kids) false)))
        (print_items_keep (cons a (cons b kids)) false)

  input_variable_keeps : (type : NodeType) (text : Option Str) → Keeps h (input_variable type text)
  unfolding input_variable
  input_variable_keeps variable (some name) = emit_on_keeps _ name (get_var_type name)
  input_variable_keeps variable none = done
  input_variable_keeps statement text = done
  input_variable_keeps expression text = done
  input_variable_keeps constant text = done
  input_variable_keeps operator text = done
  input_variable_keeps function_call text = done
  input_variable_keeps assignment text = done

mutual
  unfolding find_input_variables

  input_variables_keep : {h : Host} (n : ParseNode h) → Keeps h (find_input_variables n)
  input_variables_keep null = done
  input_variables_keep (node type token text value line kids) =
      seq _ _ (input_variable_keeps type text) (all_variables_keep kids)

  all_variables_keep : {h : Host} (kids : Children h) → Keeps h (find_all_variables kids)
  all_variables_keep nil = done
  all_variables_keep (cons c kids) = seq _ _ (input_variables_keep c) (all_variables_keep kids)

module _ {h : Host} where
  prompt_keeps : (text : Option Str) → Keeps h (emit_prompt text)
  unfolding emit_prompt
  prompt_keeps none cs s = (s, omega arith)
  prompt_keeps (some str) cs s = then_emit _ _ _ _ (compiler_add_string-IsSound str cs s)

  pub input_keeps : (kids : Children h) → Keeps h (compile_input kids)
  unfolding compile_input
  input_keeps kids = seq _ _ (prompt_keeps (find_prompt kids)) (all_variables_keep kids)

  store_in_keeps : (n : ParseNode h) → Keeps h (store_in n)
  unfolding store_in
  store_in_keeps n =
      with_name_keeps (unwrap n) _ (λ name. emit_on_keeps Op.pop_var name (get_var_type name))

  pub open_keeps : (kids : Children h) → Keeps h (compile_open_stmt kids)
  unfolding compile_open_stmt
  open_keeps kids = required 7 kids _ (
      seq _ _ (child_keeps kids 1) (
        seq _ _ (child_keeps kids 3)
          (seq _ _ (child_keeps kids 5) (seq _ _ (child_keeps kids 7) (emits Op.open_file 0)))))

  pub close_keeps : (kids : Children h) → Keeps h (compile_close_stmt kids)
  unfolding compile_close_stmt
  close_keeps kids =
      seq _ _ (branch (ltb 1 (count kids)) _ _ (child_keeps kids 1) (emits Op.push_const 0))
        (emits Op.close 0)

  pub put_keeps : (kids : Children h) → Keeps h (compile_put_stmt kids)
  unfolding compile_put_stmt
  put_keeps kids =
      required 3 kids _
        (seq _ _ (child_keeps kids 1) (seq _ _ (child_keeps kids 3) (emits Op.put 0)))

  into_variable_keeps : (op : Op) (kids : Children h) → Keeps h (into_variable op kids)
  unfolding into_variable
  into_variable_keeps op kids = required 3 kids _ (
      with_child_keeps kids 3 _
        (λ var. seq _ _ (child_keeps kids 1) (emit_then op 0 _ (store_in_keeps var))))

  pub get_keeps : (kids : Children h) → Keeps h (compile_get_stmt kids)
  unfolding compile_get_stmt
  get_keeps = into_variable_keeps Op.get

  pub status_keeps : (kids : Children h) → Keeps h (compile_status_stmt kids)
  unfolding compile_status_stmt
  status_keeps = into_variable_keeps Op.status

  store_both_keeps : (sector byte : Str) → Keeps h (store_both sector byte)
  unfolding store_both
  store_both_keeps sector byte cs s =
      with_slot_keeps sector (get_var_type sector) cs
        (λ a cs₁.
          let byte_slot = slot_of byte (get_var_type byte) cs₁ in
          (emit Op.pop_var (to_u16 byte_slot.0) >=> emit Op.pop_var (to_u16 a)) byte_slot.1)
        s
        (λ a cs₁ s₁.
          with_slot_keeps byte (get_var_type byte) cs₁
            (λ b. emit Op.pop_var (to_u16 b) >=> emit Op.pop_var (to_u16 a)) s₁
            (λ b.
              seq (emit Op.pop_var (to_u16 b)) (emit Op.pop_var (to_u16 a))
                (emits Op.pop_var (to_u16 b)) (emits Op.pop_var (to_u16 a))))

  pub note_keeps : (kids : Children h) → Keeps h (compile_note_stmt kids)
  unfolding compile_note_stmt
  note_keeps kids = required 5 kids _ (
      with_child_keeps kids 3 _ (λ a. with_child_keeps kids 5 _ (λ b. seq _ _ (child_keeps kids 1) (
        emit_then Op.note 0 _ (
          with_name_keeps (unwrap a) _ (λ sector.
            with_name_keeps (unwrap b) (store_both sector) (store_both_keeps sector)))))))

  pub point_keeps : (kids : Children h) → Keeps h (compile_point_stmt kids)
  unfolding compile_point_stmt
  point_keeps kids = required 5 kids _ (
      seq _ _ (child_keeps kids 1)
        (seq _ _ (child_keeps kids 3) (seq _ _ (child_keeps kids 5) (emits Op.point 0))))

  pub xio_keeps : (kids : Children h) → Keeps h (compile_xio_stmt kids)
  unfolding compile_xio_stmt
  xio_keeps kids = required 10 kids _ (
      seq _ _ (child_keeps kids 0) (
        seq _ _ (child_keeps kids 3) (
          seq _ _ (child_keeps kids 5)
            (seq _ _ (child_keeps kids 7) (seq _ _ (child_keeps kids 9) (emits Op.xio 0))))))

  pub poke_keeps : (kids : Children h) → Keeps h (compile_poke_stmt kids)
  unfolding compile_poke_stmt
  poke_keeps kids =
      required 3 kids _
        (seq _ _ (child_keeps kids 0) (seq _ _ (child_keeps kids 2) (emits Op.poke 0)))

  pub restore_keeps : (kids : Children h) → Keeps h (compile_restore_stmt kids)
  unfolding compile_restore_stmt
  restore_keeps kids =
      branch (ltb 0 (count kids)) _ _ (seq _ _ (child_keeps kids 0) (emits Op.restore_line 0))
        (emits Op.restore 0)

  pub randomize_keeps : (kids : Children h) → Keeps h (compile_randomize_stmt kids)
  unfolding compile_randomize_stmt
  randomize_keeps kids =
      required 1 kids _
        (with_child_keeps kids 0 _ (λ arg. deref_keeps arg _ (λ cs s. go cs s (no_argument arg))))
    where
      go :
          (cs : CompilerState h)
          → IsSound cs
          → (b : Option Bool)
          → After (length cs.program.code) (
              b >>= λ missing.
              if missing then some cs else (compile_child kids 0 >=> emit Op.randomize 0) cs)
      go cs s none = tt
      go cs s (some b) =
          branch_at b skip (compile_child kids 0 >=> emit Op.randomize 0) cs s done
            (seq _ _ (child_keeps kids 0) (emits Op.randomize 0))
