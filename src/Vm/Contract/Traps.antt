-- ===== src/Vm/Contract/Traps.antt =====
-- Errors and TRAP: `vm_error` of src/vm.c and the operations that run on after it.
use basset_lang.Prelude.{
  ℕ, ◌+◌, ◌%◌, ◌^◌, ◌<◌, ◌≡◌, refl, true, false, lt→ltb, some, List, [], ◌∷◌, length, get_elem?,
  store_at-some, get_elem?-set_self, Ensures,
}
use basset_lang.Host.{Host, Str}
use basset_lang.Vm.State.{Value, string, Cpu, Store}
use basset_lang.Vm.Stack.{
  num, next, vm_error, vm_error_with, vm_pop, vm_pop_number, vm_call_pop, err_return_without_gosub,
}
use basset_lang.Vm.Jumps.{op_return, op_pop_var}

module _ {h : Host} where
  -- RETURN with no GOSUB under a TRAP does not enter the handler: the error is recorded and the trap
  -- is spent, and then the machine jumps to the first instruction of the program.
  pub op_return-trapped :
      (c : Cpu h)
      → c.call_stack ≡ []
      → c.trap_enabled ≡ true
      → 0 < c.trap_line
      → ((op_return c).pc ≡ 0)
        × ((op_return c).error_code ≡ err_return_without_gosub)
        × ((op_return c).trap_enabled ≡ false)
        × ((op_return c).running ≡ c.running)
  unfolding op_return vm_call_pop vm_error vm_error_with
  op_return-trapped c empty enabled armed =
      rw empty (rw enabled (rw (lt→ltb 0 c.trap_line armed) (refl, refl, refl, refl)))

  -- A string where a numeric assignment expects a number, under a TRAP: the handler is entered one
  -- instruction too late, after its first, and the variable has been set to 0.
  pub op_pop_var-trapped :
      (slot : ℕ) (s : Store h) (c : Cpu h) (t : Str) (rest : List (Value h))
      → c.stack ≡ string t ∷ rest
      → c.trap_enabled ≡ true
      → 0 < c.trap_line
      → slot < length s.num_vars
      → Ensures
          (λ r.
            (r.0.pc ≡ (c.trap_line + 1) % 2 ^ 32)
            × (r.0.trap_triggered ≡ true)
            × (get_elem? r.1.num_vars slot ≡ some (num h 0)))
          (op_pop_var slot s c)
  unfolding op_pop_var vm_pop_number vm_pop vm_error vm_error_with next
  op_pop_var-trapped slot s c t rest st enabled armed inside = rw st (
      rw enabled (
        rw (lt→ltb 0 c.trap_line armed) (
          rw (store_at-some s.num_vars slot (num h 0) inside)
            (refl, refl, get_elem?-set_self s.num_vars slot (num h 0) inside))))
