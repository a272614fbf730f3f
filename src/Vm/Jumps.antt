-- ===== src/Vm/Jumps.antt =====
-- src/vm.c, "Stack Operations" of the loop and "Control Flow".
use basset_lang.Prelude.{
  ℕ, ◌+◌, ◌%◌, ◌^◌, ℤ, pos, negsuc, pos_part, Bool, not, ◌&&◌, leb, ◌==◌, Option, none, some, List,
  [], ◌∷◌, get_elem?, store_at, if◌then◌else◌, ◌>>=◌,
}
use basset_lang.Host.{Host, Str}
use basset_lang.Bytecode.{Instruction}
use basset_lang.Program.{LineMapping, VariableInfo}
use basset_lang.LineMap.{find_line_offset}
use basset_lang.Vm.State.{ForLoopState, next_mismatch, Cpu, Store}
use basset_lang.Vm.Stack.{
  num, next, vm_error, vm_error_with, vm_push, vm_push_number, vm_push_string, vm_pop,
  vm_pop_number, vm_pop_string, vm_call_push, vm_call_pop, vm_for_push, vm_for_top, vm_for_pop,
  err_undefined_line, err_for_next_mismatch,
}

-- A null string variable reads as the empty string.
abbrev pub text_of : Option Str → Str
text_of none = []
text_of (some s) = s

-- Whether the index of ON is one of the `count` targets.
abbrev pub in_table : ℤ → ℕ → Bool
in_table index count = leb 1 (pos_part index) && leb (pos_part index) count

abbrev pub vm_get_var_name : List VariableInfo → ℕ → Str
vm_get_var_name table slot = elim (get_elem? table slot) [ none ↦ 63 ∷ [] | some v ↦ v.name ]

module _ {h : Host} where
  unfoldable pub op_push_const : List h.Double → ℕ → Cpu h → Option (Cpu h)
  op_push_const pool operand c = do
    value ← get_elem? pool operand
    some (next (vm_push_number value c))

  unfoldable pub op_push_var : ℕ → Store h → Cpu h → Option (Cpu h)
  op_push_var operand s c = do
    value ← get_elem? s.num_vars operand
    some (next (vm_push_number value c))

  unfoldable pub op_str_push_var : ℕ → Store h → Cpu h → Option (Cpu h)
  op_str_push_var operand s c = do
    str ← get_elem? s.str_vars operand
    some (next (vm_push_string (text_of str) c))

  unfoldable pub op_pop_var : ℕ → Store h → Cpu h → Option (Cpu h × Store h)
  op_pop_var operand s c₀ = do
    let popped = vm_pop_number c₀
    num_vars ← store_at s.num_vars operand popped.0
    some (next popped.1, record s { num_vars = num_vars })

  unfoldable pub op_str_pop_var : ℕ → Store h → Cpu h → Option (Cpu h × Store h)
  op_str_pop_var operand s c₀ = do
    let popped = vm_pop_string c₀
    str_vars ← store_at s.str_vars operand (some popped.0)
    some (next popped.1, record s { str_vars = str_vars })

  unfoldable pub op_dup : Cpu h → Cpu h
  op_dup c = next (elim c.stack [ [] ↦ c | v ∷ _ ↦ vm_push v c ])

  unfoldable pub op_pop : Cpu h → Cpu h
  op_pop c = next (vm_pop c).1

  unfoldable pub op_jump : ℕ → Cpu h → Cpu h
  op_jump operand c = record c { pc = operand }

  -- OP_JUMP_IF_FALSE and OP_JUMP_IF_TRUE: jump where the condition is zero, or is not.
  unfoldable pub op_jump_if : Bool → ℕ → Cpu h → Cpu h
  op_jump_if on_zero operand c₀ =
      let (cond, c₁) = vm_pop_number c₀ in
      if (if on_zero then h.eq cond (num h 0) else not (h.eq cond (num h 0)))
      then record c₁ { pc = operand }
      else next c₁

  -- The jump to a line that the map has, at `offset`, or the error.
  unfoldable pub jump_to_line : Bool → ℤ → Cpu h → Cpu h
  jump_to_line is_gosub (pos offset) c =
      record (if is_gosub then vm_call_push ((c.pc + 1) % 2 ^ 32) c else c) { pc = offset }
  jump_to_line is_gosub (negsuc _) c = vm_error err_undefined_line "UNDEF'D STATEMENT" c

  -- OP_JUMP_LINE and OP_GOSUB_LINE
  unfoldable pub op_jump_line : List LineMapping → Bool → Cpu h → Cpu h
  unfolding jump_to_line
  op_jump_line map is_gosub c₀ =
      let (line_d, c₁) = vm_pop_number c₀ in
      jump_to_line is_gosub (find_line_offset map (h.to_u16 line_d)) c₁

  unfoldable pub op_gosub : ℕ → Cpu h → Cpu h
  op_gosub operand c = record (vm_call_push ((c.pc + 1) % 2 ^ 32) c) { pc = operand }

  -- OP_ON_GOTO and OP_ON_GOSUB: a target is the operand of an entry of the table that follows.
  unfoldable pub op_on : List Instruction → Bool → ℕ → Cpu h → Option (Cpu h)
  op_on code is_gosub count c₀ =
      let (index_d, c₁) = vm_pop_number c₀ in
      let index = h.to_int index_d in
      let after = (c₁.pc + count + 1) % 2 ^ 32 in
      let called = if is_gosub then vm_call_push after c₁ else c₁ in
      let taken : Option (Cpu h) = (do
        entry ← get_elem? code ((c₁.pc + pos_part index) % 2 ^ 32)
        some (record called { pc = entry.operand })) in
      if in_table index count then taken else some (record c₁ { pc = after })

  unfoldable pub op_return : Cpu h → Cpu h
  op_return c₀ = let (addr, c₁) = vm_call_pop c₀ in record c₁ { pc = addr }

  unfoldable pub op_pop_gosub : Cpu h → Cpu h
  op_pop_gosub c = next (elim c.call_stack [ [] ↦ c | _ ∷ rest ↦ record c { call_stack = rest } ])

  unfoldable pub op_for_init : ℕ → Store h → Cpu h → Option (Cpu h × Store h)
  op_for_init operand s c₀ =
      let (step, c₁) = vm_pop_number c₀ in
      let (limit, c₂) = vm_pop_number c₁ in
      let (start, c₃) = vm_pop_number c₂ in
      let state : ForLoopState h = record {
        var_slot = operand;
        limit = limit;
        step = step;
        loop_start_pc = (c₃.pc + 1) % 2 ^ 32;
      } in
      store_at s.num_vars operand start >>= λ num_vars.
      some (next (vm_for_push state c₃), record s { num_vars = num_vars })

  -- `new_val` has passed the limit, in the direction of the step.
  abbrev pub loop_done : ForLoopState h → h.Double → Bool
  loop_done loop new_val =
      if h.lt (num h 0) loop.step then h.lt loop.limit new_val else h.lt new_val loop.limit

  -- The step of the innermost loop, whose variable is `loop.var_slot`.
  unfoldable pub advance_loop : ForLoopState h → Store h → Cpu h → Option (Cpu h × Store h)
  advance_loop loop s c = do
    old ← get_elem? s.num_vars loop.var_slot
    let new_val = h.add old loop.step
    num_vars ← store_at s.num_vars loop.var_slot new_val
    some (
      if loop_done loop new_val then next (vm_for_pop c) else record c { pc = loop.loop_start_pc },
      record s { num_vars = num_vars },
    )

  -- The operand 0xFFFF is a NEXT without a variable.
  unfoldable pub for_next :
      List VariableInfo → ℕ → Option (ForLoopState h) → Store h → Cpu h → Option (Cpu h × Store h)
  unfolding advance_loop
  for_next table operand none s c = some (c, s)
  for_next table operand (some loop) s c =
      if not (operand == 0xffff) && not (loop.var_slot == operand)
      then some (
        vm_error_with err_for_next_mismatch
            (next_mismatch (vm_get_var_name table loop.var_slot) (vm_get_var_name table operand)) c,
        s,
      )
      else advance_loop loop s c

  unfoldable pub op_for_next : List VariableInfo → ℕ → Store h → Cpu h → Option (Cpu h × Store h)
  unfolding for_next
  op_for_next table operand s c₀ =
      let (loop, c₁) = vm_for_top c₀ in for_next table operand loop s c₁
