-- ===== src/Vm/Safety/Control.antt =====
-- The stack primitives and the operations on the processor alone keep its invariant.
use basset_lang.Prelude.{ℕ, ◌<◌, Bool, true, false, String, arith, if◌then◌else◌}
use basset_lang.Host.{Host, Str}
use basset_lang.Vm.State.{Value, ForLoopState, Diagnostic, Cpu}
use basset_lang.Vm.Stack.{
  next, vm_error_with, vm_error, vm_push, vm_push_number, vm_push_string, vm_pop, vm_pop_number,
  vm_pop_string, vm_call_push, vm_call_pop, vm_for_push, vm_for_top, vm_for_pop,
}
use basset_lang.Vm.Safety.Invariant.{CpuOk}

pub if_both {ℓ κ} :
    {A : Type ℓ} (P : A → Type κ) (b : Bool) {x y : A} → P x → P y → P (if b then x else y)
if_both P true p q = p
if_both P false p q = q

module _ {h : Host} {n : ℕ} where
  pub CpuOk-next : {c : Cpu h} → CpuOk n c → CpuOk n (next c)
  unfolding next
  CpuOk-next w = record {
    stack_room = w.stack_room;
    stack_fits = w.stack_fits;
    call_room = w.call_room;
    call_fits = w.call_fits;
    for_room = w.for_room;
    for_fits = w.for_fits;
    loops = w.loops;
  }

  pub CpuOk-vm_error_with :
      (code : ℕ) (d : Diagnostic) {c : Cpu h} → CpuOk n c → CpuOk n (vm_error_with code d c)
  unfolding vm_error_with
  CpuOk-vm_error_with code d w = ground arith

  pub CpuOk-vm_push : (v : Value h) {c : Cpu h} → CpuOk n c → CpuOk n (vm_push v c)
  unfolding vm_push
  CpuOk-vm_push v w = ground arith

  pub CpuOk-vm_error : (code : ℕ) (s : String) {c : Cpu h} → CpuOk n c → CpuOk n (vm_error code s c)
  unfolding vm_error
  CpuOk-vm_error code s w = ground arith

  pub CpuOk-vm_pop : {c : Cpu h} → CpuOk n c → CpuOk n (vm_pop c).1
  unfolding vm_pop
  CpuOk-vm_pop w = ground arith

  pub CpuOk-vm_pop_number : {c : Cpu h} → CpuOk n c → CpuOk n (vm_pop_number c).1
  unfolding vm_pop_number
  CpuOk-vm_pop_number w = ground arith

  pub CpuOk-vm_pop_string : {c : Cpu h} → CpuOk n c → CpuOk n (vm_pop_string c).1
  unfolding vm_pop_string
  CpuOk-vm_pop_string w = ground arith

  pub CpuOk-vm_push_number : (d : h.Double) {c : Cpu h} → CpuOk n c → CpuOk n (vm_push_number d c)
  unfolding vm_push_number
  CpuOk-vm_push_number v w = ground arith

  pub CpuOk-vm_push_string : (s : Str) {c : Cpu h} → CpuOk n c → CpuOk n (vm_push_string s c)
  unfolding vm_push_string
  CpuOk-vm_push_string v w = ground arith

  pub CpuOk-vm_call_push : (a : ℕ) {c : Cpu h} → CpuOk n c → CpuOk n (vm_call_push a c)
  unfolding vm_call_push
  CpuOk-vm_call_push a w = ground arith

  pub CpuOk-vm_call_pop : {c : Cpu h} → CpuOk n c → CpuOk n (vm_call_pop c).1
  unfolding vm_call_pop
  CpuOk-vm_call_pop w = ground arith

  pub CpuOk-vm_for_push :
      (s : ForLoopState h) {c : Cpu h} → s.var_slot < n → CpuOk n c → CpuOk n (vm_for_push s c)
  unfolding vm_for_push
  CpuOk-vm_for_push s b w = ground arith

  pub CpuOk-vm_for_top : {c : Cpu h} → CpuOk n c → CpuOk n (vm_for_top c).1
  unfolding vm_for_top
  CpuOk-vm_for_top w = ground arith

  pub CpuOk-vm_for_pop : {c : Cpu h} → CpuOk n c → CpuOk n (vm_for_pop c)
  unfolding vm_for_pop
  CpuOk-vm_for_pop w = ground arith

  -- A jump, or the end of the program, changes no stack.
  pub CpuOk-pc : (pc : ℕ) {c : Cpu h} → CpuOk n c → CpuOk n (record c { pc = pc })
  CpuOk-pc pc w = ground arith

  pub CpuOk-trap_triggered :
      (b : Bool) {c : Cpu h} → CpuOk n c → CpuOk n (record c { trap_triggered = b })
  CpuOk-trap_triggered b w = ground arith

  pub CpuOk-if : (b : Bool) {x y : Cpu h} → CpuOk n x → CpuOk n y → CpuOk n (if b then x else y)
  CpuOk-if true p q = p
  CpuOk-if false p q = q

pub ruleset cpu_rules = (
  CpuOk-if, CpuOk-next, CpuOk-vm_error_with, CpuOk-vm_error, CpuOk-vm_push, CpuOk-vm_pop,
  CpuOk-vm_pop_number, CpuOk-vm_pop_string, CpuOk-vm_push_number, CpuOk-vm_push_string,
  CpuOk-vm_call_push, CpuOk-vm_call_pop, CpuOk-pc, CpuOk-trap_triggered,
)
