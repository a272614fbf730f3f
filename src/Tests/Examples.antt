-- ===== src/Tests/Examples.antt =====
-- The properties of the operations at concrete inputs.
use basset_lang.Prelude.{
  ℕ, zero, suc, ◌+◌, ◌%◌, ◌^◌, ◌<◌, ◌≡◌, refl, ap, arith, pos, ◌+ℤ◌, Bool, true, false, none, some,
  List, [], ◌∷◌, ◌++◌, get_elem?, Ensures, ◌>>=◌,
}
use basset_lang.Host.{Str}
use basset_lang.Bytecode.{Op, byte_of, decode, Instruction}
use basset_lang.Bytecode.RoundTrip.{decode-byte_of}
use basset_lang.Program.{LineMapping, var_array_2d}
use basset_lang.LineMap.{find_line_offset}
use basset_lang.LineMap.Search.{IsSorted, find_line_offset_complete}
use basset_lang.Vm.State.{string, Value, number, Cpu, null, ArrayData, Store, Random, Vm}
use basset_lang.Vm.Stack.{next, vm_push, vm_pop, vm_pop_number, vm_for_push, vm_call_push}
use basset_lang.Vm.Strings.{left_string, right_string, mid_string, mid_rest_string}
use basset_lang.Vm.Jumps.{op_gosub, op_return, op_pop_var, op_on, op_for_init, op_for_next}
use basset_lang.Vm.Arrays.{
  array_get_1d, array_set_1d, array_get_2d, array_set_2d, auto_dim_1d, auto_dim_2d, dimension,
}
use basset_lang.Vm.Execute.{step}
use basset_lang.Vm.Contract.Calls.{op_return-op_gosub, op_return-op_on, op_for_next-op_for_init}
use basset_lang.Vm.Contract.Traps.{op_return-trapped, op_pop_var-trapped}
use basset_lang.Vm.Contract.Text.{
  left_string-right_string, mid_string-left_string, mid_rest_string-right_string,
}
use basset_lang.Vm.Contract.Elements.{array_get_1d-array_set_1d, array_get_2d-array_set_2d}
use basset_lang.Tests.Hosts.{integers}
use basset_lang.Tests.Runs.{sample}

-- A processor at instruction 12 with the stack given.
abbrev cpu_with : List (Value integers) → Cpu integers
cpu_with stack = record {
  pc = 12;
  running = true;
  stack = stack;
  stack_capacity = 256;
  call_stack = [];
  call_capacity = 64;
  for_stack = [];
  for_capacity = 32;
  trap_line = 40;
  trap_enabled = true;
  trap_triggered = false;
  error_code = 0;
  diagnostics = [];
}

abbrev one_array : Store integers
one_array = record {
  num_vars = pos 0 ∷ pos 5 ∷ [];
  str_vars = some [] ∷ [];
  arrays = record { type = var_array_2d; dim1 = 0; dim2 = 0; is_string = false; u = null } ∷ [];
}

abbrev machine : List (Value integers) → Bool → Vm integers
machine stack running = record {
  cpu = record (cpu_with stack) { running = running };
  store = one_array;
  channels = [];
  printer = record {
    print_needs_newline = false;
    print_last_char = 0;
    print_after_tab = false;
    print_channel = 0;
    print_column = 9;
    print_width = 80;
  };
  random = record { rnd_seed = 1; last_rnd = pos 0 };
  input = none;
  deg_mode = false;
  memory = λ _. 0;
  data_pointer = 0;
  world = [];
  program = sample;
}

abbrev an_array : ArrayData integers
an_array = record { type = var_array_2d; dim1 = 0; dim2 = 0; is_string = false; u = null }

index_in_default : 10 < (auto_dim_1d false an_array).dim1
unfolding auto_dim_1d dimension
index_in_default = omega arith

row_in_default : 10 < (auto_dim_2d false an_array).dim1
unfolding auto_dim_2d dimension
row_in_default = omega arith

column_in_default : 3 < (auto_dim_2d false an_array).dim2
unfolding auto_dim_2d dimension
column_in_default = omega arith

array_get_1d-array_set_1d_example :
    Ensures
      (λ r. r.0 ≡ next (vm_push (number (pos 7)) (cpu_with [])))
      (array_set_1d false 0 one_array (cpu_with (number (pos 7) ∷ number (pos 10) ∷ [])) >>= λ done.
        array_get_1d false 0 done.1 (cpu_with (number (pos 10) ∷ [])))
array_get_1d-array_set_1d_example =
    array_get_1d-array_set_1d false 0 an_array one_array
      (cpu_with (number (pos 7) ∷ number (pos 10) ∷ [])) (cpu_with (number (pos 10) ∷ []))
      (number (pos 7)) (pos 10) [] [] refl (refl, tt) refl refl tt index_in_default

array_get_2d-array_set_2d_example :
    Ensures
      (λ r. r.0 ≡ next (vm_push (number (pos 7)) (cpu_with [])))
      (array_set_2d false 0 one_array
          (cpu_with (number (pos 7) ∷ number (pos 3) ∷ number (pos 10) ∷ []))
        >>= λ done. array_get_2d false 0 done.1 (cpu_with (number (pos 3) ∷ number (pos 10) ∷ [])))
array_get_2d-array_set_2d_example =
    array_get_2d-array_set_2d false 0 an_array one_array
      (cpu_with (number (pos 7) ∷ number (pos 3) ∷ number (pos 10) ∷ []))
      (cpu_with (number (pos 3) ∷ number (pos 10) ∷ [])) (number (pos 7)) (pos 10) (pos 3) [] []
      refl (refl, tt) refl refl tt row_in_default column_in_default

abbrev line : ℕ → ℕ → LineMapping
line n pc = record { line_number = n; pc_offset = pc }

abbrev two_lines : List LineMapping
two_lines = line 10 0 ∷ line 20 13 ∷ []

two_lines-IsSorted : IsSorted two_lines
two_lines-IsSorted zero zero a b p q less = absurd (omega arith)
two_lines-IsSorted zero (suc zero) a b p q less =
    let first : line 10 0 ≡ a = cc in
    let second : line 20 13 ≡ b = cc in
    omega (arith, ap (λ m. m.line_number) first, ap (λ m. m.line_number) second)
two_lines-IsSorted zero (suc (suc j)) a b p q less = cc
two_lines-IsSorted (suc zero) zero a b p q less = absurd (omega arith)
two_lines-IsSorted (suc zero) (suc zero) a b p q less = absurd (omega arith)
two_lines-IsSorted (suc zero) (suc (suc j)) a b p q less = cc
two_lines-IsSorted (suc (suc i)) j a b p q less = cc

find_line_offset_complete_example : find_line_offset two_lines 20 ≡ pos 13
find_line_offset_complete_example =
    find_line_offset_complete two_lines 1 (line 20 13) two_lines-IsSorted refl

-- GOSUB at instruction 12 to instruction 30.
abbrev called : Cpu integers
called = record (cpu_with []) { pc = 30; call_stack = 13 ∷ [] }

called_stack : called.call_stack ≡ (op_gosub 30 (cpu_with [])).call_stack
unfolding op_gosub vm_call_push
called_stack = refl

op_return-op_gosub_example :
    ((op_return called).pc ≡ (12 + 1) % 2 ^ 32) × ((op_return called).call_stack ≡ [])
op_return-op_gosub_example = op_return-op_gosub 30 (cpu_with []) called called_stack

abbrev targets : List Instruction
targets =
    record { opcode = Op.on_gosub; flags = 0; operand = 1 }
    ∷ record { opcode = Op.jump; flags = 0; operand = 30 }
    ∷ []

abbrev chooser : Cpu integers
chooser = record (cpu_with (number (pos 1) ∷ [])) { pc = 0 }

popped_one : vm_pop_number chooser ≡ (pos 1, record chooser { stack = [] })
unfolding vm_pop_number vm_pop
popped_one = refl

op_return-op_on_example :
    Ensures
      (λ d.
        (d.pc ≡ 30)
        × ((op_return d).pc ≡ ((vm_pop_number chooser).1.pc + 1 + 1) % 2 ^ 32)
        × ((op_return d).call_stack ≡ (vm_pop_number chooser).1.call_stack))
      (op_on targets true 1 chooser)
op_return-op_on_example =
    op_return-op_on targets 1 chooser (record { opcode = Op.jump; flags = 0; operand = 30 })
      (rw popped_one refl) (rw popped_one refl)

abbrev before_for : Cpu integers
before_for = cpu_with (number (pos 1) ∷ number (pos 9) ∷ number (pos 4) ∷ [])

-- After FOR, and at the NEXT that leaves the loop.
abbrev in_loop : Cpu integers
in_loop = record (cpu_with []) {
  pc = 13;
  for_stack = record { var_slot = 1; limit = pos 9; step = pos 1; loop_start_pc = 13 } ∷ [];
}

abbrev at_nine : Store integers
at_nine = record one_array { num_vars = pos 0 ∷ pos 9 ∷ [] }

loop_begun :
    op_for_init 1 one_array before_for
    ≡ some (in_loop, record one_array { num_vars = pos 0 ∷ pos 4 ∷ [] })
unfolding op_for_init vm_pop_number vm_pop next vm_for_push
loop_begun = refl

op_for_next-op_for_init_example :
    op_for_next [] 1 at_nine in_loop
    ≡ some (
      next (record in_loop { for_stack = [] }),
      record at_nine { num_vars = pos 0 ∷ pos 10 ∷ [] },
    )
unfolding ◌+ℤ◌
op_for_next-op_for_init_example =
    op_for_next-op_for_init [] 1 one_array (record one_array { num_vars = pos 0 ∷ pos 4 ∷ [] })
      at_nine before_for in_loop in_loop (pos 1) (pos 9) (pos 4) (pos 9) [] refl loop_begun refl
      refl

op_return-trapped_example :
    ((op_return (cpu_with [])).pc ≡ 0)
    × ((op_return (cpu_with [])).error_code ≡ 3)
    × ((op_return (cpu_with [])).trap_enabled ≡ false)
    × ((op_return (cpu_with [])).running ≡ true)
op_return-trapped_example = op_return-trapped (cpu_with []) refl refl (omega arith)

op_pop_var-trapped_example :
    Ensures
      (λ r. (r.0.pc ≡ 41) × (r.0.trap_triggered ≡ true) × (get_elem? r.1.num_vars 1 ≡ some (pos 0)))
      (op_pop_var 1 one_array (cpu_with (string [] ∷ [])))
op_pop_var-trapped_example =
    op_pop_var-trapped 1 one_array (cpu_with (string [] ∷ [])) [] [] refl refl (omega arith)
      (omega arith)

abbrev abc : Str
abc = 97 ∷ 98 ∷ 99 ∷ []

left_string-right_string_example :
    (left : Str) × (left_string abc (pos 1) ≡ some left) × (left ++ right_string abc (pos 2) ≡ abc)
left_string-right_string_example = left_string-right_string abc 1 (omega arith) (omega arith)

mid_string-left_string_example : mid_string abc (pos 1) (pos 2) ≡ left_string abc (pos 2)
mid_string-left_string_example = mid_string-left_string abc 2 (omega arith) (omega arith)

mid_rest_string-right_string_example : mid_rest_string abc (pos 2) ≡ some (right_string abc (pos 2))
mid_rest_string-right_string_example =
    mid_rest_string-right_string abc 1 (omega arith) (omega arith)

abbrev generator : Random integers
generator = record { rnd_seed = 1; last_rnd = pos 0 }

decode-byte_of_example : decode (byte_of Op.gosub) ≡ Op.gosub
decode-byte_of_example = decode-byte_of Op.gosub tt
