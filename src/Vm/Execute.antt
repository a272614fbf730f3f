-- ===== src/Vm/Execute.antt =====
-- src/vm.c, `vm_init` and `vm_execute`: the state at the start, the `switch` over the opcodes, and
-- the loop. `none` is behaviour that C leaves undefined.
use basset_lang.Prelude.{
  ℕ, zero, suc, pos, Bool, true, false, ◌||◌, ◌==◌, Option, none, some, List, [], ◌∷◌, length,
  replicate, get_elem?, if◌then◌else◌, ◌>>=◌,
}
use basset_lang.Host.{Host, Str}
use basset_lang.Bytecode.{Op}
use basset_lang.Program.{VarType, var_numeric, var_string, VariableInfo, CompiledProgram}
use basset_lang.Vm.State.{Cpu, null, ArrayData, Store, Channel, Random, Vm}
use basset_lang.Vm.Stack.{num, next}
use basset_lang.Vm.Arith.{
  op_checked, op_div, op_binary, op_unary, op_and, op_or, op_not, op_eq, op_ne, op_lt, op_le, op_gt,
  op_ge,
}
use basset_lang.Vm.Strings.{
  op_str_push, op_left, op_right, op_mid, op_mid_2, op_len, op_asc, op_val, op_chr, op_str,
  op_fn_err,
}
use basset_lang.Vm.Jumps.{
  op_push_const, op_push_var, op_str_push_var, op_pop_var, op_str_pop_var, op_dup, op_pop, op_jump,
  op_jump_if, op_jump_line, op_gosub, op_on, op_return, op_pop_gosub, op_for_init, op_for_next,
}
use basset_lang.Vm.Print.{
  op_print_num, op_print_str, op_print_newline, op_print_space, op_print_tab, op_tab_func,
  op_print_nosep, op_set_print_channel,
}
use basset_lang.Vm.Math.{
  op_angle, op_atn, op_log, op_clog, op_sqr, op_sgn, op_rnd, op_randomize, op_peek, op_poke,
}
use basset_lang.Vm.Input.{op_input_num, op_input_str, op_input_prompt}
use basset_lang.Vm.Arrays.{
  op_dim_1d, op_dim_2d, op_array_get_1d, op_array_set_1d, op_array_get_2d, op_array_set_2d,
  op_str_array_get_1d, op_str_array_set_1d, op_str_array_get_2d, op_str_array_set_2d, op_clr,
}
use basset_lang.Vm.Reads.{op_data_read_num, op_data_read_str}
use basset_lang.Vm.Files.{op_open, op_close, op_get, op_put, op_note, op_point, op_status, op_xio}

-- `strchr(name, '$')`
unfoldable pub has_dollar : Str → Bool
has_dollar [] = false
has_dollar (c ∷ s) = c == 36 || has_dollar s

abbrev pub is_var_string : VarType → Bool
is_var_string var_string = true
is_var_string _ = false

-- Whether `vm_init` marks the arrays of a variable as arrays of strings.
abbrev pub holds_strings : VariableInfo → Bool
holds_strings v = is_var_string v.type || has_dollar v.name

module _ {h : Host} where
  unfoldable pub init_arrays : List VariableInfo → List (ArrayData h)
  init_arrays [] = []
  init_arrays (v ∷ table) =
      record { type = var_numeric; dim1 = 0; dim2 = 0; is_string = holds_strings v; u = null }
      ∷ init_arrays table

  closed_channel : Channel h
  closed_channel = record { handle = none; status = 0; position = pos 0 }

  unfoldable pub vm_init : CompiledProgram h → h.World → Vm h
  unfolding init_arrays closed_channel replicate
  vm_init program world =
      let n = length program.var_table in
      record {
        cpu = record {
          pc = 0;
          running = true;
          stack = [];
          stack_capacity = 256;
          call_stack = [];
          call_capacity = 64;
          for_stack = [];
          for_capacity = 32;
          trap_line = 0;
          trap_enabled = false;
          trap_triggered = false;
          error_code = 0;
          diagnostics = [];
        };
        store = record {
          num_vars = replicate n (num h 0);
          str_vars = replicate n (some []);
          arrays = init_arrays program.var_table;
        };
        channels = replicate 8 closed_channel;
        printer = record {
          print_needs_newline = false;
          print_last_char = 0;
          print_after_tab = false;
          print_channel = 0;
          print_column = 1;
          print_width = 80;
        };
        random = record { rnd_seed = 327680; last_rnd = h.div (num h 1) (num h 2) };
        input = none;
        deg_mode = false;
        memory = λ _. 0;
        data_pointer = 0;
        world = world;
        program = program;
      }

  -- The parts of the machine that a case works on.
  unfoldable pub on_cpu : Vm h → Cpu h → Option (Vm h)
  on_cpu vm c = some (record vm { cpu = c })

  on_cpu? : Vm h → Option (Cpu h) → Option (Vm h)
  on_cpu? vm r = do c ← r; some (record vm { cpu = c })

  unfoldable pub on_store : Vm h → Option (Cpu h × Store h) → Option (Vm h)
  on_store vm r = do (c, s) ← r; some (record vm { cpu = c; store = s })

  on_data : Vm h → Option (Cpu h × Store h × ℕ) → Option (Vm h)
  on_data vm r = do (c, s, p) ← r; some (record vm { cpu = c; store = s; data_pointer = p })

  on_random : Vm h → Cpu h × Random h → Option (Vm h)
  on_random vm r = some (record vm { cpu = r.0; random = r.1 })

  on_memory : Vm h → Option (Cpu h × (ℕ → ℕ)) → Option (Vm h)
  on_memory vm r = do (c, m) ← r; some (record vm { cpu = c; memory = m })

  set_mode : Bool → Vm h → Option (Vm h)
  set_mode b vm = some (record vm { deg_mode = b; cpu = next vm.cpu })

  restart_data : Vm h → Option (Vm h)
  restart_data vm = some (record vm { data_pointer = 0; cpu = next vm.cpu })

  unfoldable pub execute : Op → ℕ → Vm h → Option (Vm h)
  unfolding on_cpu on_cpu? on_store on_data on_random on_memory set_mode restart_data
  execute Op.push_const n vm = on_cpu? vm (op_push_const vm.program.const_pool n vm.cpu)
  execute Op.push_var n vm = on_cpu? vm (op_push_var n vm.store vm.cpu)
  execute Op.str_push_var n vm = on_cpu? vm (op_str_push_var n vm.store vm.cpu)
  execute Op.pop_var n vm = on_store vm (op_pop_var n vm.store vm.cpu)
  execute Op.str_pop_var n vm = on_store vm (op_str_pop_var n vm.store vm.cpu)
  execute Op.dup n vm = on_cpu vm (op_dup vm.cpu)
  execute Op.pop n vm = on_cpu vm (op_pop vm.cpu)
  execute Op.add n vm = on_cpu vm (op_checked h.add vm.cpu)
  execute Op.sub n vm = on_cpu vm (op_checked h.sub vm.cpu)
  execute Op.mul n vm = on_cpu vm (op_checked h.mul vm.cpu)
  execute Op.div n vm = on_cpu vm (op_div vm.cpu)
  execute Op.modulo n vm = on_cpu vm (op_checked h.fmod vm.cpu)
  execute Op.pow n vm = on_cpu vm (op_binary h.pow vm.cpu)
  execute Op.neg n vm = on_cpu vm (op_unary h.neg vm.cpu)
  execute Op.eq n vm = on_cpu vm (op_eq vm.cpu)
  execute Op.ne n vm = on_cpu vm (op_ne vm.cpu)
  execute Op.lt n vm = on_cpu vm (op_lt vm.cpu)
  execute Op.le n vm = on_cpu vm (op_le vm.cpu)
  execute Op.gt n vm = on_cpu vm (op_gt vm.cpu)
  execute Op.ge n vm = on_cpu vm (op_ge vm.cpu)
  execute Op.and n vm = on_cpu vm (op_and vm.cpu)
  execute Op.or n vm = on_cpu vm (op_or vm.cpu)
  execute Op.not n vm = on_cpu vm (op_not vm.cpu)
  execute Op.str_push n vm = on_cpu? vm (op_str_push vm.program.string_pool n vm.cpu)
  execute Op.str_left n vm = on_cpu? vm (op_left vm.cpu)
  execute Op.str_right n vm = on_cpu? vm (op_right vm.cpu)
  execute Op.str_mid n vm = on_cpu? vm (op_mid vm.cpu)
  execute Op.str_mid_2 n vm = on_cpu? vm (op_mid_2 vm.cpu)
  execute Op.str_len n vm = on_cpu vm (op_len vm.cpu)
  execute Op.str_chr n vm = on_cpu vm (op_chr vm.cpu)
  execute Op.str_asc n vm = on_cpu vm (op_asc vm.cpu)
  execute Op.str_str n vm = on_cpu vm (op_str vm.cpu)
  execute Op.str_val n vm = on_cpu vm (op_val vm.cpu)
  execute Op.fn_err n vm = on_cpu vm (op_fn_err vm.cpu)
  execute Op.jump n vm = on_cpu vm (op_jump n vm.cpu)
  execute Op.jump_if_false n vm = on_cpu vm (op_jump_if true n vm.cpu)
  execute Op.jump_if_true n vm = on_cpu vm (op_jump_if false n vm.cpu)
  execute Op.jump_line n vm = on_cpu vm (op_jump_line vm.program.line_map false vm.cpu)
  execute Op.gosub n vm = on_cpu vm (op_gosub n vm.cpu)
  execute Op.gosub_line n vm = on_cpu vm (op_jump_line vm.program.line_map true vm.cpu)
  execute Op.on_goto n vm = on_cpu? vm (op_on vm.program.code false n vm.cpu)
  execute Op.on_gosub n vm = on_cpu? vm (op_on vm.program.code true n vm.cpu)
  execute Op.return n vm = on_cpu vm (op_return vm.cpu)
  execute Op.for_init n vm = on_store vm (op_for_init n vm.store vm.cpu)
  execute Op.for_next n vm = on_store vm (op_for_next vm.program.var_table n vm.store vm.cpu)
  execute Op.set_print_channel n vm = some (op_set_print_channel vm)
  execute Op.print_num n vm = some (op_print_num vm)
  execute Op.print_str n vm = some (op_print_str vm)
  execute Op.print_newline n vm = some (op_print_newline vm)
  execute Op.print_space n vm = some (op_print_space vm)
  execute Op.print_tab n vm = some (op_print_tab vm)
  execute Op.tab_func n vm = some (op_tab_func vm)
  execute Op.print_nosep n vm = some (op_print_nosep vm)
  execute Op.input_prompt n vm = op_input_prompt n vm
  execute Op.input_num n vm = op_input_num n vm
  execute Op.input_str n vm = op_input_str n vm
  execute Op.open_file n vm = op_open vm
  execute Op.close n vm = op_close vm
  execute Op.get n vm = op_get vm
  execute Op.put n vm = op_put vm
  execute Op.note n vm = op_note vm
  execute Op.point n vm = op_point vm
  execute Op.status n vm = on_cpu? vm (op_status vm.channels vm.cpu)
  execute Op.func_sin n vm = on_cpu vm (op_angle h.sin vm.deg_mode vm.cpu)
  execute Op.func_cos n vm = on_cpu vm (op_angle h.cos vm.deg_mode vm.cpu)
  execute Op.func_tan n vm = on_cpu vm (op_angle h.tan vm.deg_mode vm.cpu)
  execute Op.func_atn n vm = on_cpu vm (op_atn vm.deg_mode vm.cpu)
  execute Op.func_exp n vm = on_cpu vm (op_unary h.exp vm.cpu)
  execute Op.func_log n vm = on_cpu vm (op_log vm.cpu)
  execute Op.func_clog n vm = on_cpu vm (op_clog vm.cpu)
  execute Op.func_sqr n vm = on_cpu vm (op_sqr vm.cpu)
  execute Op.func_abs n vm = on_cpu vm (op_unary h.fabs vm.cpu)
  execute Op.func_int n vm = on_cpu vm (op_unary h.floor vm.cpu)
  execute Op.func_rnd n vm = on_random vm (op_rnd vm.random vm.cpu)
  execute Op.func_sgn n vm = on_cpu vm (op_sgn vm.cpu)
  execute Op.func_peek n vm = on_cpu? vm (op_peek vm.memory vm.cpu)
  execute Op.poke n vm = on_memory vm (op_poke vm.memory vm.cpu)
  execute Op.dim_1d n vm = on_store vm (op_dim_1d n vm.store vm.cpu)
  execute Op.dim_2d n vm = on_store vm (op_dim_2d n vm.store vm.cpu)
  execute Op.array_get_1d n vm = on_store vm (op_array_get_1d n vm.store vm.cpu)
  execute Op.array_set_1d n vm = on_store vm (op_array_set_1d n vm.store vm.cpu)
  execute Op.array_get_2d n vm = on_store vm (op_array_get_2d n vm.store vm.cpu)
  execute Op.array_set_2d n vm = on_store vm (op_array_set_2d n vm.store vm.cpu)
  execute Op.str_array_get_1d n vm = on_store vm (op_str_array_get_1d n vm.store vm.cpu)
  execute Op.str_array_set_1d n vm = on_store vm (op_str_array_set_1d n vm.store vm.cpu)
  execute Op.str_array_get_2d n vm = on_store vm (op_str_array_get_2d n vm.store vm.cpu)
  execute Op.str_array_set_2d n vm = on_store vm (op_str_array_set_2d n vm.store vm.cpu)
  execute Op.data_read_num n vm =
      on_data vm (op_data_read_num vm.program n vm.data_pointer vm.store vm.cpu)
  execute Op.data_read_str n vm =
      on_data vm (op_data_read_str vm.program n vm.data_pointer vm.store vm.cpu)
  execute Op.restore n vm = restart_data vm
  execute Op.restore_line n vm = restart_data vm
  execute Op.trap n vm = on_cpu vm (next (record vm.cpu { trap_line = n; trap_enabled = true }))
  execute Op.trap_disable n vm = on_cpu vm (next (record vm.cpu { trap_enabled = false }))
  execute Op.xio n vm = op_xio vm
  execute Op.end n vm = on_cpu vm (record vm.cpu { running = false })
  execute Op.stop n vm = on_cpu vm (record vm.cpu { running = false })
  execute Op.deg n vm = set_mode true vm
  execute Op.rad n vm = set_mode false vm
  execute Op.randomize n vm = on_random vm (op_randomize vm.cpu)
  execute Op.clr n vm = on_store vm (some (op_clr vm.store vm.cpu))
  execute Op.pop_gosub n vm = on_cpu vm (op_pop_gosub vm.cpu)
  execute Op.nop n vm = on_cpu vm (next vm.cpu)
  execute Op.str_concat n vm = on_cpu vm (record vm.cpu { running = false })
  execute Op.halt n vm = on_cpu vm (record vm.cpu { running = false })
  execute (Op.other b) n vm = on_cpu vm (record vm.cpu { running = false })

  -- After the `switch`, the flag of a trap is cleared.
  unfoldable pub finish : Vm h → Vm h
  finish vm = record vm { cpu = record vm.cpu { trap_triggered = false } }

  -- One round of the loop; a stopped machine stays as it is.
  unfoldable pub step : Vm h → Option (Vm h)
  unfolding finish
  step vm =
      let fetched : Option (Vm h) = elim (get_elem? vm.program.code vm.cpu.pc) [
        | none ↦ some vm
        | some inst ↦ (do vm' ← execute inst.opcode inst.operand vm; some (finish vm'))
      ] in
      if vm.cpu.running then fetched else some vm

  -- `vm_execute`, for at most `fuel` rounds: a program may run for ever.
  unfoldable pub vm_execute : ℕ → Vm h → Option (Vm h)
  vm_execute zero vm = some vm
  vm_execute (suc fuel) vm = step vm >>= vm_execute fuel
