-- ===== src/Vm/Contract/Calls.antt =====
-- Subroutines and loops: GOSUB with RETURN, ON GOSUB, and FOR with NEXT.
use basset_lang.Prelude.{
  ℕ, ◌+◌, ◌%◌, ◌^◌, ◌≡◌, refl, ◌∙◌, ap, Bool, true, false, pos_part, Option, none, some, List, ◌∷◌,
  not, ◌&&◌, get_elem?, set, store_at, some_in_range, store_at-some, ◌==◌, arith, Ensures,
  if◌then◌else◌,
}
use basset_lang.Host.{Host}
use basset_lang.Bytecode.{Instruction}
use basset_lang.Program.{VariableInfo}
use basset_lang.Vm.State.{Value, number, ForLoopState, Cpu, Store}
use basset_lang.Vm.Stack.{
  num, next, vm_pop_number, vm_pop, vm_call_push, vm_call_pop, vm_for_push, vm_for_top, vm_for_pop,
}
use basset_lang.Vm.Jumps.{
  op_gosub, op_return, op_on, in_table, op_for_init, op_for_next, for_next, advance_loop,
}

same_slot : (n : ℕ) → (n == n) ≡ true
same_slot n = ground arith

and_false : (b : Bool) → (b && false) ≡ false
and_false true = refl
and_false false = refl

module _ {h : Host} where
  -- A RETURN goes to the instruction after the GOSUB, and takes off the call stack just what the
  -- GOSUB put there, whatever ran in between, where that left the call stack as GOSUB made it.
  pub op_return-op_gosub :
      (target : ℕ) (c d : Cpu h)
      → d.call_stack ≡ (op_gosub target c).call_stack
      → ((op_return d).pc ≡ (c.pc + 1) % 2 ^ 32) × ((op_return d).call_stack ≡ c.call_stack)
  unfolding op_return op_gosub vm_call_push vm_call_pop
  op_return-op_gosub target c d e = rw e (refl, refl)

  -- Where the index of ON GOSUB selects an entry of the table, the jump is to the operand of that
  -- entry, and a RETURN with the same call stack goes to the instruction after the table.
  pub op_return-op_on :
      (code : List Instruction) (count : ℕ) (c : Cpu h) (entry : Instruction)
      → in_table (h.to_int (vm_pop_number c).0) count ≡ true
      → get_elem? code (((vm_pop_number c).1.pc + pos_part (h.to_int (vm_pop_number c).0)) % 2 ^ 32)
        ≡ some entry
      → Ensures
          (λ called.
            (called.pc ≡ entry.operand)
            × ((op_return called).pc ≡ ((vm_pop_number c).1.pc + count + 1) % 2 ^ 32)
            × ((op_return called).call_stack ≡ (vm_pop_number c).1.call_stack))
          (op_on code true count c)
  unfolding op_on op_return vm_call_push vm_call_pop
  op_return-op_on code count c entry inside at_index = rw inside (rw at_index (refl, refl, refl))

  for_init_stack :
      (slot : ℕ) (s s₁ : Store h) (c c₁ : Cpu h) (step limit start : h.Double)
      → (rest : List (Value h)) (stored : Option (List h.Double))
      → c.stack ≡ number step ∷ number limit ∷ number start ∷ rest
      → store_at s.num_vars slot start ≡ stored
      → op_for_init slot s c ≡ some (c₁, s₁)
      → c₁.for_stack
        ≡ record {
          var_slot = slot;
          limit = limit;
          step = step;
          loop_start_pc = (c.pc + 1) % 2 ^ 32;
        }
          ∷ c.for_stack
  unfolding op_for_init vm_for_push vm_pop_number vm_pop next
  for_init_stack slot s s₁ c c₁ step limit start rest none st at begun =
      let q : op_for_init slot s c ≡ none = rw st (rw at refl) in cc
  for_init_stack slot s s₁ c c₁ step limit start rest (some xs) st at begun =
      let state : ForLoopState h = record {
        var_slot = slot;
        limit = limit;
        step = step;
        loop_start_pc = (c.pc + 1) % 2 ^ 32;
      } in
      let after : Cpu h = next (vm_for_push state (record c { stack = rest })) in
      let q : op_for_init slot s c ≡ some (after, record s { num_vars = xs }) =
        rw st (rw at refl) in
      let same : c₁ ≡ after = cc in ap (λ k. k.for_stack) same

  -- FOR with a limit and a step, and the NEXT of the same variable with the loop on top: NEXT adds the
  -- step to the variable, then either leaves the loop, to the instruction after NEXT and without the
  -- loop's entry, when the new value has passed the limit, or goes to the instruction after FOR.
  pub op_for_next-op_for_init :
      (table : List VariableInfo) (slot : ℕ) (s s₁ t : Store h) (c c₁ d : Cpu h)
      → (step limit start old : h.Double) (rest : List (Value h))
      → c.stack ≡ number step ∷ number limit ∷ number start ∷ rest
      → op_for_init slot s c ≡ some (c₁, s₁)
      → d.for_stack ≡ c₁.for_stack
      → get_elem? t.num_vars slot ≡ some old
      → op_for_next table slot t d
        ≡ some (
          if if h.lt (num h 0) step
                then h.lt limit (h.add old step)
                else h.lt (h.add old step) limit
              then next (record d { for_stack = c.for_stack })
              else record d { pc = (c.pc + 1) % 2 ^ 32 },
          record t { num_vars = set t.num_vars slot (h.add old step) },
        )
  unfolding op_for_next for_next advance_loop vm_for_top vm_for_pop next
  op_for_next-op_for_init table slot s s₁ t c c₁ d step limit start old rest st begun same at_slot =
      let top : d.for_stack
          ≡ record {
            var_slot = slot;
            limit = limit;
            step = step;
            loop_start_pc = (c.pc + 1) % 2 ^ 32;
          }
            ∷ c.for_stack =
        same ∙ for_init_stack slot s s₁ c c₁ step limit start rest _ st refl begun in
      rw top (
        rw (same_slot slot) (
          rw at_slot (
            rw (store_at-some t.num_vars slot (h.add old step) (some_in_range _ _ _ at_slot))
              (rw (and_false (not (slot == 65535))) refl))))
