-- ===== src/Vm/Stack.antt =====
-- src/vm.c, "Stack operations" to "Error handling": the stack primitives and `vm_error`.
use basset_lang.Prelude.{
  ℕ, ◌+◌, ◌*◌, ◌%◌, ◌^◌, true, false, ◌&&◌, pos, String, Option, none, some, [], ◌∷◌, length, ltb,
  leb, if◌then◌else◌,
}
use basset_lang.Host.{Host, Str}
use basset_lang.Vm.State.{Value, number, string, ForLoopState, Diagnostic, error, Cpu}

-- The error codes of src/vm.h.
abbrev pub err_next_without_for : ℕ
err_next_without_for = 1

abbrev pub err_return_without_gosub : ℕ
err_return_without_gosub = 3

abbrev pub err_out_of_data : ℕ
err_out_of_data = 4

abbrev pub err_illegal_function : ℕ
err_illegal_function = 5

abbrev pub err_overflow : ℕ
err_overflow = 6

abbrev pub err_undefined_line : ℕ
err_undefined_line = 8

abbrev pub err_subscript_range : ℕ
err_subscript_range = 9

abbrev pub err_division_by_zero : ℕ
err_division_by_zero = 11

abbrev pub err_type_mismatch : ℕ
err_type_mismatch = 13

abbrev pub err_for_next_mismatch : ℕ
err_for_next_mismatch = 15

abbrev pub err_bad_file_number : ℕ
err_bad_file_number = 52

abbrev pub err_file_not_found : ℕ
err_file_not_found = 53

abbrev pub err_device_io : ℕ
err_device_io = 57

-- `if (top >= capacity) capacity *= 2`
abbrev pub grown : ℕ → ℕ → ℕ
grown top capacity = if leb capacity top then capacity * 2 else capacity

-- The double of a small number in the source.
abbrev pub num : (h : Host) → ℕ → h.Double
num h n = h.of_int (pos n)

module _ {h : Host} where
  -- `vm->pc++` on a `uint32_t`
  unfoldable pub next : Cpu h → Cpu h
  next c = record c { pc = (c.pc + 1) % 2 ^ 32 }

  -- With a trap set, the handler is entered with an empty stack; else the machine stops.
  unfoldable pub vm_error_with : ℕ → Diagnostic → Cpu h → Cpu h
  vm_error_with code message c =
      if c.trap_enabled && ltb 0 c.trap_line
      then record c {
        error_code = code;
        stack = [];
        pc = c.trap_line;
        trap_enabled = false;
        trap_triggered = true;
      }
      else record c { error_code = code; diagnostics = message ∷ c.diagnostics; running = false }

  unfoldable pub vm_error : ℕ → String → Cpu h → Cpu h
  unfolding vm_error_with
  vm_error code message = vm_error_with code (error message)

  unfoldable pub vm_push : Value h → Cpu h → Cpu h
  vm_push v c = record c {
    stack = v ∷ c.stack;
    stack_capacity = grown (length c.stack) c.stack_capacity;
  }

  unfoldable pub vm_pop : Cpu h → Value h × Cpu h
  unfolding vm_error
  vm_pop c = elim c.stack [
    | [] ↦ (number (num h 0), vm_error err_overflow "STACK UNDERFLOW" c)
    | v ∷ rest ↦ (v, record c { stack = rest })
  ]

  unfoldable pub vm_push_number : h.Double → Cpu h → Cpu h
  unfolding vm_push
  vm_push_number n = vm_push (number n)

  unfoldable pub vm_push_string : Str → Cpu h → Cpu h
  unfolding vm_push
  vm_push_string s = vm_push (string s)

  expect_number : Value h → Cpu h → h.Double × Cpu h
  unfolding vm_error
  expect_number (number n) c = (n, c)
  expect_number (string s) c =
      (num h 0, vm_error err_type_mismatch "TYPE MISMATCH - expected number" c)

  unfoldable pub vm_pop_number : Cpu h → h.Double × Cpu h
  unfolding vm_pop expect_number
  vm_pop_number c = let (v, c') = vm_pop c in expect_number v c'

  expect_string : Value h → Cpu h → Str × Cpu h
  unfolding vm_error
  expect_string (string s) c = (s, c)
  expect_string (number n) c = ([], vm_error err_type_mismatch "TYPE MISMATCH - expected string" c)

  unfoldable pub vm_pop_string : Cpu h → Str × Cpu h
  unfolding vm_pop expect_string
  vm_pop_string c = let (v, c') = vm_pop c in expect_string v c'

  unfoldable pub vm_call_push : ℕ → Cpu h → Cpu h
  vm_call_push return_addr c = record c {
    call_stack = return_addr ∷ c.call_stack;
    call_capacity = grown (length c.call_stack) c.call_capacity;
  }

  unfoldable pub vm_call_pop : Cpu h → ℕ × Cpu h
  unfolding vm_error
  vm_call_pop c = elim c.call_stack [
    | [] ↦ (0, vm_error err_return_without_gosub "RETURN WITHOUT GOSUB" c)
    | addr ∷ rest ↦ (addr, record c { call_stack = rest })
  ]

  unfoldable pub vm_for_push : ForLoopState h → Cpu h → Cpu h
  vm_for_push state c = record c {
    for_stack = state ∷ c.for_stack;
    for_capacity = grown (length c.for_stack) c.for_capacity;
  }

  unfoldable pub vm_for_top : Cpu h → Option (ForLoopState h) × Cpu h
  unfolding vm_error
  vm_for_top c = elim c.for_stack [
    | [] ↦ (none, vm_error err_next_without_for "NEXT WITHOUT FOR" c)
    | state ∷ _ ↦ (some state, c)
  ]

  unfoldable pub vm_for_pop : Cpu h → Cpu h
  vm_for_pop c = elim c.for_stack [ [] ↦ c | _ ∷ rest ↦ record c { for_stack = rest } ]
