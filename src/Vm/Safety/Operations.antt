-- ===== src/Vm/Safety/Operations.antt =====
-- The opcodes that work on the processor alone keep its invariant.
use Prim.Native.Nat.{Ordering}
use basset_lang.Prelude.{not, ℕ, Bool, true, false, String, ℤ, pos, negsuc, List, arith}
use basset_lang.Host.{Host, Str}
use basset_lang.Program.{LineMapping}
use basset_lang.LineMap.{find_line_offset}
use basset_lang.Vm.State.{Cpu}
use basset_lang.Vm.Stack.{vm_push, vm_pop_number, next}
use basset_lang.Vm.Arith.{
  op_checked, op_div, op_binary, op_unary, op_compare, op_eq, op_ne, op_lt, op_le, op_gt, op_ge,
  is_eq, is_lt, is_gt,
}
use basset_lang.Vm.Strings.{op_of_string, op_to_string, op_fn_err}
use basset_lang.Vm.Jumps.{
  op_dup, op_pop, op_jump_if, jump_to_line, op_jump_line, op_gosub, op_return, op_pop_gosub,
}
use basset_lang.Vm.Math.{op_partial}
use basset_lang.Vm.Safety.Invariant.{CpuOk}
use basset_lang.Vm.Safety.Control.{
  cpu_rules, CpuOk-if, CpuOk-next, CpuOk-vm_push_number, CpuOk-vm_pop, CpuOk-vm_pop_number,
  CpuOk-vm_error, CpuOk-trap_triggered,
}

module _ {h : Host} {n : ℕ} where
  pub CpuOk-op_checked :
      (f : h.Double → h.Double → h.Double) {c : Cpu h} → CpuOk n c → CpuOk n (op_checked f c)
  unfolding op_checked
  CpuOk-op_checked f w =
      let w₁ = CpuOk-vm_pop_number w in
      let w₂ = CpuOk-vm_pop_number w₁ in
      CpuOk-if _ w₁ (CpuOk-if _ w₂ (CpuOk-next (CpuOk-vm_push_number _ w₂)))

  pub CpuOk-op_div : {c : Cpu h} → CpuOk n c → CpuOk n (op_div c)
  unfolding op_div
  CpuOk-op_div w =
      let w₂ = CpuOk-vm_pop_number (CpuOk-vm_pop_number w) in
      let w₃ = CpuOk-vm_error _ _ w₂ in
      CpuOk-if _ (CpuOk-if _ (CpuOk-trap_triggered false w₃) (CpuOk-next w₃))
        (CpuOk-next (CpuOk-vm_push_number _ w₂))

  pub CpuOk-op_binary :
      (f : h.Double → h.Double → h.Double) {c : Cpu h} → CpuOk n c → CpuOk n (op_binary f c)
  unfolding op_binary
  CpuOk-op_binary f w = search cpu_rules

  pub CpuOk-op_unary : (f : h.Double → h.Double) {c : Cpu h} → CpuOk n c → CpuOk n (op_unary f c)
  unfolding op_unary
  CpuOk-op_unary f w = search cpu_rules

  pub CpuOk-op_of_string : (f : Str → h.Double) {c : Cpu h} → CpuOk n c → CpuOk n (op_of_string f c)
  unfolding op_of_string
  CpuOk-op_of_string f w = search cpu_rules

  pub CpuOk-op_to_string : (f : h.Double → Str) {c : Cpu h} → CpuOk n c → CpuOk n (op_to_string f c)
  unfolding op_to_string
  CpuOk-op_to_string f w = search cpu_rules

  pub CpuOk-op_fn_err : {c : Cpu h} → CpuOk n c → CpuOk n (op_fn_err c)
  unfolding op_fn_err
  CpuOk-op_fn_err w = search cpu_rules

  pub CpuOk-op_pop : {c : Cpu h} → CpuOk n c → CpuOk n (op_pop c)
  unfolding op_pop
  CpuOk-op_pop w = search cpu_rules

  pub CpuOk-op_dup : {c : Cpu h} → CpuOk n c → CpuOk n (op_dup c)
  unfolding op_dup vm_push next
  CpuOk-op_dup w = ground arith

  pub CpuOk-op_jump_if : (z : Bool) (a : ℕ) {c : Cpu h} → CpuOk n c → CpuOk n (op_jump_if z a c)
  unfolding op_jump_if
  CpuOk-op_jump_if z a w = search cpu_rules

  pub CpuOk-op_gosub : (a : ℕ) {c : Cpu h} → CpuOk n c → CpuOk n (op_gosub a c)
  unfolding op_gosub
  CpuOk-op_gosub a w = search cpu_rules

  pub CpuOk-op_return : {c : Cpu h} → CpuOk n c → CpuOk n (op_return c)
  unfolding op_return
  CpuOk-op_return w = search cpu_rules

  pub CpuOk-op_partial :
      (bad : h.Double → Bool) (s : String) (f : h.Double → h.Double) {c : Cpu h}
      → CpuOk n c
      → CpuOk n (op_partial bad s f c)
  unfolding op_partial
  CpuOk-op_partial bad s f w = search cpu_rules

  pub CpuOk-op_compare :
      (f : h.Double → h.Double → Bool) (g : Ordering → Bool) (b : Bool) {c : Cpu h}
      → CpuOk n c
      → CpuOk n (op_compare f g b c)
  unfolding op_compare
  CpuOk-op_compare f g b w =
      let w₂ = CpuOk-vm_pop (CpuOk-vm_pop w) in
      CpuOk-next (CpuOk-vm_push_number _ (CpuOk-if _ w₂ (CpuOk-vm_error _ _ w₂)))

  CpuOk-jump_to_line :
      (g : Bool) (offset : ℤ) {c : Cpu h} → CpuOk n c → CpuOk n (jump_to_line g offset c)
  unfolding jump_to_line
  CpuOk-jump_to_line true (pos a) w = search cpu_rules
  CpuOk-jump_to_line false (pos a) w = search cpu_rules
  CpuOk-jump_to_line g (negsuc a) w = search cpu_rules

  pub CpuOk-op_jump_line :
      (map : List LineMapping) (g : Bool) {c : Cpu h} → CpuOk n c → CpuOk n (op_jump_line map g c)
  unfolding op_jump_line
  CpuOk-op_jump_line map g {c} w =
      CpuOk-jump_to_line g (find_line_offset map (h.to_u16 (vm_pop_number c).0))
        (CpuOk-vm_pop_number w)

  pub CpuOk-op_pop_gosub : {c : Cpu h} → CpuOk n c → CpuOk n (op_pop_gosub c)
  unfolding op_pop_gosub next
  CpuOk-op_pop_gosub w = ground arith

  pub CpuOk-op_eq : {c : Cpu h} → CpuOk n c → CpuOk n (op_eq c)
  unfolding op_eq
  CpuOk-op_eq w = CpuOk-op_compare h.eq is_eq false w

  pub CpuOk-op_ne : {c : Cpu h} → CpuOk n c → CpuOk n (op_ne c)
  unfolding op_ne
  CpuOk-op_ne w = CpuOk-op_compare (λ a b. not (h.eq a b)) (λ o. not (is_eq o)) true w

  pub CpuOk-op_lt : {c : Cpu h} → CpuOk n c → CpuOk n (op_lt c)
  unfolding op_lt
  CpuOk-op_lt w = CpuOk-op_compare h.lt is_lt false w

  pub CpuOk-op_le : {c : Cpu h} → CpuOk n c → CpuOk n (op_le c)
  unfolding op_le
  CpuOk-op_le w = CpuOk-op_compare h.le (λ o. not (is_gt o)) false w

  pub CpuOk-op_gt : {c : Cpu h} → CpuOk n c → CpuOk n (op_gt c)
  unfolding op_gt
  CpuOk-op_gt w = CpuOk-op_compare (λ a b. h.lt b a) is_gt false w

  pub CpuOk-op_ge : {c : Cpu h} → CpuOk n c → CpuOk n (op_ge c)
  unfolding op_ge
  CpuOk-op_ge w = CpuOk-op_compare (λ a b. h.le b a) (λ o. not (is_lt o)) false w
