-- ===== src/Vm/Print.antt =====
-- src/vm.c, "I/O Operations": the output. Flushing a stream is not modelled.
use basset_lang.Prelude.{
  ℕ, zero, suc, ◌+◌, ◌-◌, ◌%◌, ◌^◌, ℤ, pos, pos_part, neg_part, Bool, true, false, not, ◌&&◌,
  Option, none, some, [], ◌∷◌, length, get_elem?, ltb, leb, ◌==◌, if◌then◌else◌,
}
use basset_lang.Host.{Host, Str}
use basset_lang.Bytecode.{Op}
use basset_lang.Vm.State.{Cpu, Vm, Diagnostic, warning_invalid_channel, warning_channel_not_open}
use basset_lang.Vm.Stack.{next, vm_pop_number, vm_pop_string}

-- The last byte of a string, or `c` if it is empty.
abbrev pub last_char : ℕ → Str → ℕ
last_char c [] = c
last_char c (b ∷ s) = last_char b s

-- The opcodes that suppress the space after a number.
abbrev pub ends_number : Op → Bool
ends_number Op.print_newline = true
ends_number Op.print_tab = true
ends_number Op.print_nosep = true
ends_number _ = false

-- The column that TAB(n) asks for.
unfoldable pub target_column : ℤ → ℕ → ℕ
target_column n width =
    let wanted = if ltb 0 (pos_part n) then pos_part n else 1 in
    if ltb width wanted then (if wanted % width == 0 then width else wanted % width) else wanted

unfoldable pub write_to : (h : Host) → Option h.File → Str → h.World → h.World
write_to h none s w = h.printf s w
write_to h (some f) s w = h.fprintf f s w

module _ {h : Host} where
  unfoldable pub warn : Diagnostic → Vm h → Vm h
  warn d vm = record vm { cpu = record vm.cpu { diagnostics = d ∷ vm.cpu.diagnostics } }

  -- The stream for output, `none` for stdout, and the machine after the warnings.
  unfoldable pub vm_get_output_file : Vm h → Option h.File × Vm h
  unfolding warn
  vm_get_output_file vm =
      let channel = vm.printer.print_channel in
      let handle : Option h.File = elim (get_elem? vm.channels channel) [
        | none ↦ none
        | some ch ↦ ch.handle
      ] in
      if channel == 0
      then (none, vm)
      else if leb channel 7
      then elim handle [
        | none ↦ (none, warn (warning_channel_not_open channel) vm)
        | some f ↦ (some f, vm)
      ]
      else (none, warn (warning_invalid_channel (pos channel)) vm)

  -- Print `s`, with the last character and the column kept up.
  unfoldable pub print_text : Option h.File → Str → Vm h → Vm h
  unfolding write_to
  print_text out s vm = record vm {
    world = write_to h out s vm.world;
    printer = record vm.printer {
      print_last_char = last_char vm.printer.print_last_char s;
      print_column = vm.printer.print_column + length s;
    };
  }

  unfoldable pub on_cpu : (Cpu h → Cpu h) → Vm h → Vm h
  on_cpu f vm = record vm { cpu = f vm.cpu }

  -- A space follows a number unless NEWLINE, TAB or NOSEP comes next, or nothing.
  unfoldable pub wants_space : Vm h → Bool
  wants_space vm = elim (get_elem? vm.program.code ((vm.cpu.pc + 1) % 2 ^ 32)) [
    | none ↦ false
    | some inst ↦ not (ends_number inst.opcode)
  ]

  unfoldable pub op_print_num : Vm h → Vm h
  unfolding print_text on_cpu wants_space
  op_print_num vm₀ =
      let (value, c₁) = vm_pop_number vm₀.cpu in
      let (out, vm₁) = vm_get_output_file (record vm₀ { cpu = c₁ }) in
      let vm₂ = if vm₁.printer.print_after_tab then vm₁ else print_text out (32 ∷ []) vm₁ in
      let vm₃ = print_text out (h.format_12g value) vm₂ in
      let vm₄ = if wants_space vm₃ then print_text out (32 ∷ []) vm₃ else vm₃ in
      record vm₄ {
        cpu = next vm₄.cpu;
        printer = record vm₄.printer { print_after_tab = false; print_needs_newline = true };
      }

  unfoldable pub op_print_str : Vm h → Vm h
  unfolding print_text
  op_print_str vm₀ =
      let (str, c₁) = vm_pop_string vm₀.cpu in
      let (out, vm₁) = vm_get_output_file (record vm₀ { cpu = c₁ }) in
      let vm₂ = print_text out str vm₁ in
      record vm₂ {
        cpu = next vm₂.cpu;
        printer = record vm₂.printer { print_after_tab = false; print_needs_newline = true };
      }

  unfoldable pub op_print_newline : Vm h → Vm h
  unfolding write_to
  op_print_newline vm₀ =
      let (out, vm₁) = vm_get_output_file vm₀ in
      record vm₁ {
        cpu = next vm₁.cpu;
        world = write_to h out (10 ∷ []) vm₁.world;
        printer = record vm₁.printer {
          print_needs_newline = false;
          print_last_char = 10;
          print_after_tab = false;
          print_column = 1;
          print_channel = 0;
        };
      }

  unfoldable pub op_print_space : Vm h → Vm h
  unfolding write_to
  op_print_space vm₀ =
      let (out, vm₁) = vm_get_output_file vm₀ in
      record vm₁ {
        cpu = next vm₁.cpu;
        world = write_to h out (32 ∷ []) vm₁.world;
        printer = record vm₁.printer { print_last_char = 32; print_after_tab = false };
      }

  unfoldable pub op_print_tab : Vm h → Vm h
  unfolding print_text
  op_print_tab vm₀ =
      let (out, vm₁) = vm_get_output_file vm₀ in
      let vm₂ = print_text out (32 ∷ []) vm₁ in
      record vm₂ { cpu = next vm₂.cpu; printer = record vm₂.printer { print_after_tab = true } }

  -- The line break of TAB where the target is not to the right.
  unfoldable pub wrap_line : Option h.File → ℕ → Vm h → Vm h
  unfolding write_to
  wrap_line out target vm =
      if leb target vm.printer.print_column
      then record vm {
        world = write_to h out (10 ∷ []) vm.world;
        printer = record vm.printer { print_column = 1 };
      }
      else vm

  -- The loop that prints the spaces.
  unfoldable pub print_spaces : Option h.File → ℕ → Vm h → Vm h
  unfolding write_to
  print_spaces out zero vm = vm
  print_spaces out (suc n) vm = print_spaces out n (record vm {
    world = write_to h out (32 ∷ []) vm.world;
    printer = record vm.printer { print_column = vm.printer.print_column + 1 };
  })

  unfoldable pub op_tab_func : Vm h → Vm h
  unfolding wrap_line print_spaces
  op_tab_func vm₀ =
      let (target_d, c₁) = vm_pop_number vm₀.cpu in
      let (out, vm₁) = vm_get_output_file (record vm₀ { cpu = c₁ }) in
      let target = target_column (h.to_int target_d) vm₁.printer.print_width in
      let vm₂ = wrap_line out target vm₁ in
      let vm₃ = print_spaces out (target - vm₂.printer.print_column) vm₂ in
      record vm₃ {
        cpu = next vm₃.cpu;
        printer = record vm₃.printer { print_last_char = 32; print_after_tab = true };
      }

  unfoldable pub op_print_nosep : Vm h → Vm h
  op_print_nosep vm = record vm {
    cpu = next vm.cpu;
    printer = record vm.printer { print_after_tab = true };
  }

  unfoldable pub op_set_print_channel : Vm h → Vm h
  unfolding warn
  op_set_print_channel vm₀ =
      let (chan_val, c₁) = vm_pop_number vm₀.cpu in
      let chan = h.to_int chan_val in
      let vm₁ = record vm₀ { cpu = next c₁ } in
      if neg_part chan == 0 && leb (pos_part chan) 7
      then record vm₁ { printer = record vm₁.printer { print_channel = pos_part chan } }
      else warn (warning_invalid_channel chan)
          (record vm₁ { printer = record vm₁.printer { print_channel = 0 } })
