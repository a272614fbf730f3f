-- ===== src/Vm/Safety/Memory.antt =====
-- The trap settings, RIGHT$, PEEK and POKE.
use basset_lang.Prelude.{
  ℕ, ◌≡◌, ℤ, pos_part, true, false, Bool, Ensures, Ensures-bind, Ensures-if, arith,
}
use basset_lang.Host.{Host}
use basset_lang.Vm.State.{Cpu}
use basset_lang.Vm.Stack.{vm_pop_number, vm_pop_string}
use basset_lang.Vm.Strings.{op_right}
use basset_lang.Vm.Math.{op_peek, op_poke, valid_address, read_memory, write_memory}
use basset_lang.Vm.Safety.Invariant.{CpuOk}
use basset_lang.Vm.Safety.Control.{
  CpuOk-next, CpuOk-vm_error, CpuOk-vm_pop_number, CpuOk-vm_pop_string, CpuOk-vm_push_number,
  CpuOk-vm_push_string,
}

address_in_range :
    (m : ℕ → ℕ) (a : ℤ)
    → valid_address a ≡ true
    → Ensures (λ _. Unit {0}) (read_memory m (pos_part a))
address_in_range m a t = ground arith

write_in_range :
    (m : ℕ → ℕ) (a : ℤ) (v : ℕ)
    → valid_address a ≡ true
    → Ensures (λ _. Unit {0}) (write_memory m (pos_part a) v)
write_in_range m a v t = ground arith

module _ {h : Host} {n : ℕ} where
  pub CpuOk-trap :
      (line : ℕ) (b : Bool) {c : Cpu h}
      → CpuOk n c
      → CpuOk n (record c { trap_line = line; trap_enabled = b })
  CpuOk-trap line b w = ground arith

  pub CpuOk-stopped : {c : Cpu h} → CpuOk n c → CpuOk n (record c { running = false })
  CpuOk-stopped w = ground arith

  pub Ensures-op_right : {c : Cpu h} → CpuOk n c → Ensures (CpuOk n) (op_right c)
  unfolding op_right
  Ensures-op_right {c} w =
      let w₂ = CpuOk-vm_pop_string (CpuOk-vm_pop_number w) in
      Ensures-if _ (vm_pop_string (vm_pop_number c).1).1.trap_triggered _ _ (λ _. w₂)
        (λ _. CpuOk-next (CpuOk-vm_push_string _ w₂))

  pub Ensures-op_peek : (m : ℕ → ℕ) {c : Cpu h} → CpuOk n c → Ensures (CpuOk n) (op_peek m c)
  unfolding op_peek
  Ensures-op_peek m {c} w =
      let a = h.to_int (vm_pop_number c).0 in
      let w₁ = CpuOk-vm_pop_number w in
      Ensures-if _ (valid_address a) _ _
        (λ t.
          Ensures-bind (λ _. Unit {0}) _ (read_memory m (pos_part a)) _ (address_in_range m a t)
            λ v _. CpuOk-next (CpuOk-vm_push_number _ w₁))
        (λ _. CpuOk-vm_error _ _ w₁)

  pub Ensures-op_poke :
      (m : ℕ → ℕ) {c : Cpu h} → CpuOk n c → Ensures (λ r. CpuOk n r.0) (op_poke m c)
  unfolding op_poke
  Ensures-op_poke m {c} w =
      let a = h.to_int (vm_pop_number (vm_pop_number c).1).0 in
      let w₂ = CpuOk-vm_pop_number (CpuOk-vm_pop_number w) in
      Ensures-if _ (valid_address a) _ _
        (λ t.
          Ensures-bind (λ _. Unit {0}) _ (write_memory m (pos_part a) _) _ (write_in_range m a _ t)
            λ m' _. CpuOk-next w₂)
        (λ _. CpuOk-vm_error _ _ w₂)
