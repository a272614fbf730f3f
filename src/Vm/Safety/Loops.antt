-- ===== src/Vm/Safety/Loops.antt =====
-- NEXT and ON: the innermost loop has a slot, and a jump table lies in the code.
use basset_lang.Prelude.{
  ℕ, ◌≡◌, ◌<◌, ◌≤◌, ◌+◌, ◌%◌, ◌^◌, pos, pos_part, Bool, true, not, ◌&&◌, ◌==◌, inl, inr, Option,
  none, some, List, length, get_elem?, store_at, arith, refl, ap, ◌∙◌, ◌⊎◌, Ensures, Ensures-bind,
  Ensures-if, Ensures-get,
}
use basset_lang.Host.{Host}
use basset_lang.Bytecode.{Instruction}
use basset_lang.Program.{VariableInfo}
use basset_lang.Vm.State.{ForLoopState, Cpu, Store}
use basset_lang.Vm.Stack.{num, vm_pop_number, vm_for_top}
use basset_lang.Vm.Jumps.{op_on, advance_loop, for_next, op_for_next, loop_done, in_table}
use basset_lang.Vm.Safety.Invariant.{CpuOk, StoreOk}
use basset_lang.Vm.Safety.Control.{
  CpuOk-next, CpuOk-pc, CpuOk-vm_pop_number, CpuOk-vm_for_top, CpuOk-vm_for_pop,
  CpuOk-vm_error_with, CpuOk-vm_call_push, CpuOk-if,
}
use basset_lang.Vm.Safety.Variables.{BothOk, Ensures-num_var}

-- The cast of the zero that a failed pop returns.
abbrev pub ZeroCast : Host → Type 0
ZeroCast h = h.to_int (num h 0) ≡ pos 0

module _ {h : Host} where
  -- A pop either succeeds and leaves the program counter, or returns zero.
  pop_number_cases : (c : Cpu h) → ((vm_pop_number c).1.pc ≡ c.pc) ⊎ ((vm_pop_number c).0 ≡ num h 0)
  unfolding vm_pop_number
  pop_number_cases c = ground arith

  -- The entry that ON reads lies in the code.
  table_entry :
      (cast : ZeroCast h) (c : Cpu h) (count len : ℕ)
      → in_table (h.to_int (vm_pop_number c).0) count ≡ true
      → c.pc + count < len
      → len ≤ 2 ^ 32
      → ((vm_pop_number c).1.pc + pos_part (h.to_int (vm_pop_number c).0)) % 2 ^ 32 < len
  table_entry cast c count len inside room small = elim (pop_number_cases c) [
    | inl same ↦ rw same (ground arith)
    | inr zero_popped ↦
        let e : h.to_int (vm_pop_number c).0 ≡ pos 0 = ap h.to_int zero_popped ∙ cast in
        absurd (ground arith)
  ]

module _ {h : Host} {n : ℕ} where
  -- The loop that NEXT finds is in range.
  top_slot :
      {c : Cpu h}
      → CpuOk (n) c
      → (loop : ForLoopState h) → (vm_for_top c).0 ≡ some loop
      → loop.var_slot < n
  unfolding vm_for_top
  top_slot w loop e = ground arith

module _ {h : Host} {ks : List Bool} where
  Ensures-advance_loop :
      (loop : ForLoopState h) {s : Store h} {c : Cpu h}
      → loop.var_slot < length ks
      → StoreOk ks s
      → CpuOk (length ks) c
      → Ensures (BothOk ks) (advance_loop loop s c)
  unfolding advance_loop
  Ensures-advance_loop loop {s} {c} b ok w =
      Ensures-bind (λ _. Unit {0}) _ (get_elem? s.num_vars loop.var_slot) _
        (Ensures-get _ s.num_vars loop.var_slot (omega (arith, ok.numbers_fit)) (λ _ _. tt))
        λ old _.
          Ensures-bind _ _ (store_at s.num_vars loop.var_slot (h.add old loop.step)) _
            (Ensures-num_var w ok loop.var_slot b _)
            λ xs p. (
              CpuOk-if (loop_done loop (h.add old loop.step)) (CpuOk-next (CpuOk-vm_for_pop w))
                  (CpuOk-pc loop.loop_start_pc w),
              p,
            )

  Ensures-for_next :
      (table : List VariableInfo) (i : ℕ) (loop : Option (ForLoopState h)) {s : Store h} {c : Cpu h}
      → ((l : ForLoopState h) → loop ≡ some l → l.var_slot < length ks)
      → StoreOk ks s
      → CpuOk (length ks) c
      → Ensures (BothOk ks) (for_next table i loop s c)
  unfolding for_next
  Ensures-for_next table i none b ok w = (w, ok)
  Ensures-for_next table i (some loop) b ok w =
      Ensures-if _ (not (i == 0xffff) && not (loop.var_slot == i)) _ _
        (λ _. (CpuOk-vm_error_with _ _ w, ok)) (λ _. Ensures-advance_loop loop (b loop refl) ok w)

  pub Ensures-op_for_next :
      (table : List VariableInfo) (i : ℕ) {s : Store h} {c : Cpu h}
      → StoreOk ks s
      → CpuOk (length ks) c
      → Ensures (BothOk ks) (op_for_next table i s c)
  unfolding op_for_next
  Ensures-op_for_next table i {s} {c} ok w =
      Ensures-for_next table i (vm_for_top c).0 (top_slot w) ok (CpuOk-vm_for_top w)

module _ {h : Host} {n : ℕ} where
  pub Ensures-op_on :
      (cast : ZeroCast h) (code : List Instruction) (g : Bool) (count : ℕ) {c : Cpu h}
      → c.pc + count < length code
      → length code ≤ 2 ^ 32
      → CpuOk (n) c
      → Ensures (CpuOk (n)) (op_on code g count c)
  unfolding op_on
  Ensures-op_on cast code g count {c} room small w =
      let w₁ = CpuOk-vm_pop_number w in
      Ensures-if _ (in_table (h.to_int (vm_pop_number c).0) count) _ _
        (λ inside.
          Ensures-bind (λ _. Unit {0}) _ (get_elem? code _) _
            (Ensures-get _ code _ (table_entry cast c count (length code) inside room small)
              (λ _ _. tt))
            λ entry _. CpuOk-pc _ (CpuOk-if g (CpuOk-vm_call_push _ w₁) w₁))
        (λ _. CpuOk-pc _ w₁)
