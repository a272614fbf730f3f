-- ===== src/Vm/Safety/Instructions.antt =====
-- No plain instruction of a well-formed program is undefined.
use basset_lang.Prelude.{ℕ, refl, true, false, Ensures}
use basset_lang.Host.{Host}
use basset_lang.Bytecode.{Op}
use basset_lang.Vm.State.{Vm}
use basset_lang.Vm.Jumps.{op_jump}
use basset_lang.Vm.Math.{op_rnd, op_randomize}
use basset_lang.Vm.Arrays.{
  op_array_get_1d, op_array_set_1d, op_array_get_2d, op_array_set_2d, op_str_array_get_1d,
  op_str_array_set_1d, op_str_array_get_2d, op_str_array_set_2d,
}
use basset_lang.Vm.Execute.{execute}
use basset_lang.Vm.Safety.Invariant.{IsWf}
use basset_lang.Vm.Safety.Control.{CpuOk-next, CpuOk-pc, CpuOk-vm_pop_number, CpuOk-vm_push_number}
use basset_lang.Vm.Safety.Operations.{
  CpuOk-op_checked, CpuOk-op_div, CpuOk-op_binary, CpuOk-op_unary, CpuOk-op_fn_err, CpuOk-op_pop,
  CpuOk-op_dup, CpuOk-op_jump_if, CpuOk-op_gosub, CpuOk-op_return, CpuOk-op_eq, CpuOk-op_ne,
  CpuOk-op_lt, CpuOk-op_le, CpuOk-op_gt, CpuOk-op_ge, CpuOk-op_jump_line, CpuOk-op_pop_gosub,
}
use basset_lang.Vm.Safety.Variables.{
  Ensures-op_push_const, Ensures-op_str_push, Ensures-op_push_var, Ensures-op_str_push_var,
  Ensures-op_pop_var, Ensures-op_str_pop_var, Ensures-op_for_init,
}
use basset_lang.Vm.Safety.Loops.{ZeroCast, Ensures-op_for_next, Ensures-op_on}
use basset_lang.Vm.Safety.Arrays.{
  Ensures-array_get_1d, Ensures-array_set_1d, Ensures-array_get_2d, Ensures-array_set_2d,
  Ensures-op_dim_1d, BothOk-op_clr,
}
use basset_lang.Vm.Safety.Io.{
  Keeps, Keeps-cpu, Keeps-store, Keeps-op_print_num, Keeps-op_print_str, Keeps-op_print_newline,
  Keeps-op_print_space, Keeps-op_print_tab, Keeps-op_tab_func, Keeps-op_print_nosep,
  Keeps-op_set_print_channel, Keeps-next,
}
use basset_lang.Vm.Safety.Inputs.{
  Ensures-op_input_num, Ensures-op_input_str, Ensures-op_input_prompt,
}
use basset_lang.Vm.Safety.Channels.{
  Ensures-op_open, Ensures-op_close, Ensures-op_get, Ensures-op_put, Ensures-op_note,
  Ensures-op_status,
}
use basset_lang.Vm.Safety.Reads.{Ensures-op_data_read_num, Ensures-op_data_read_str}
use basset_lang.Vm.Safety.Programs.{kinds, OperandOk, ProgramOk, IsPlain}
use basset_lang.Vm.Safety.Functions.{
  CpuOk-op_and, CpuOk-op_or, CpuOk-op_not, CpuOk-op_len, CpuOk-op_asc, CpuOk-op_val, CpuOk-op_chr,
  CpuOk-op_str, CpuOk-op_log, CpuOk-op_clog, CpuOk-op_sqr, CpuOk-op_sgn, CpuOk-op_angle,
  CpuOk-op_atn,
}
use basset_lang.Vm.Safety.Memory.{
  CpuOk-trap, CpuOk-stopped, Ensures-op_right, Ensures-op_peek, Ensures-op_poke,
}
use basset_lang.Vm.Safety.Parts.{
  slot_kind, with_cpu?, with_store, with_data, with_memory, Keeps-random, Keeps-data_pointer,
  Keeps-deg_mode,
}

module _ {h : Host} (cast : ZeroCast h) where
  -- A plain opcode with an operand in range is defined, and keeps the invariant and the program.
  pub execute-Keeps :
      (op : Op) (n : ℕ) (vm : Vm h)
      → ProgramOk vm.program
      → IsWf (kinds vm.program.var_table) vm
      → OperandOk vm.program vm.cpu.pc op n
      → IsPlain op
      → Ensures (Keeps (kinds vm.program.var_table) vm.program) (execute op n vm)
  unfolding execute op_jump op_rnd op_randomize op_array_get_1d op_array_set_1d op_array_get_2d
      op_array_set_2d op_str_array_get_1d op_str_array_set_1d op_str_array_get_2d
      op_str_array_set_2d
  execute-Keeps Op.push_const n vm good g b plain =
      with_cpu? (record { wf = g; same = refl }) _
        (Ensures-op_push_const vm.program.const_pool n b g.cpu_ok)
  execute-Keeps Op.push_var n vm good g b plain =
      with_cpu? (record { wf = g; same = refl }) _ (Ensures-op_push_var g.cpu_ok g.store_ok n b)
  execute-Keeps Op.pop_var n vm good g b plain =
      with_store (record { wf = g; same = refl }) _ (Ensures-op_pop_var g.cpu_ok g.store_ok n b)
  execute-Keeps Op.dup n vm good g b plain =
      Keeps-cpu (CpuOk-op_dup g.cpu_ok) (record { wf = g; same = refl })
  execute-Keeps Op.pop n vm good g b plain =
      Keeps-cpu (CpuOk-op_pop g.cpu_ok) (record { wf = g; same = refl })
  execute-Keeps Op.str_pop_var n vm good g b plain =
      with_store (record { wf = g; same = refl }) _ (Ensures-op_str_pop_var g.cpu_ok g.store_ok n b)
  execute-Keeps Op.str_push_var n vm good g b plain =
      with_cpu? (record { wf = g; same = refl }) _ (Ensures-op_str_push_var g.cpu_ok g.store_ok n b)
  execute-Keeps Op.add n vm good g b plain =
      Keeps-cpu (CpuOk-op_checked h.add g.cpu_ok) (record { wf = g; same = refl })
  execute-Keeps Op.sub n vm good g b plain =
      Keeps-cpu (CpuOk-op_checked h.sub g.cpu_ok) (record { wf = g; same = refl })
  execute-Keeps Op.mul n vm good g b plain =
      Keeps-cpu (CpuOk-op_checked h.mul g.cpu_ok) (record { wf = g; same = refl })
  execute-Keeps Op.div n vm good g b plain =
      Keeps-cpu (CpuOk-op_div g.cpu_ok) (record { wf = g; same = refl })
  execute-Keeps Op.modulo n vm good g b plain =
      Keeps-cpu (CpuOk-op_checked h.fmod g.cpu_ok) (record { wf = g; same = refl })
  execute-Keeps Op.pow n vm good g b plain =
      Keeps-cpu (CpuOk-op_binary h.pow g.cpu_ok) (record { wf = g; same = refl })
  execute-Keeps Op.neg n vm good g b plain =
      Keeps-cpu (CpuOk-op_unary h.neg g.cpu_ok) (record { wf = g; same = refl })
  execute-Keeps Op.eq n vm good g b plain =
      Keeps-cpu (CpuOk-op_eq g.cpu_ok) (record { wf = g; same = refl })
  execute-Keeps Op.ne n vm good g b plain =
      Keeps-cpu (CpuOk-op_ne g.cpu_ok) (record { wf = g; same = refl })
  execute-Keeps Op.lt n vm good g b plain =
      Keeps-cpu (CpuOk-op_lt g.cpu_ok) (record { wf = g; same = refl })
  execute-Keeps Op.le n vm good g b plain =
      Keeps-cpu (CpuOk-op_le g.cpu_ok) (record { wf = g; same = refl })
  execute-Keeps Op.gt n vm good g b plain =
      Keeps-cpu (CpuOk-op_gt g.cpu_ok) (record { wf = g; same = refl })
  execute-Keeps Op.ge n vm good g b plain =
      Keeps-cpu (CpuOk-op_ge g.cpu_ok) (record { wf = g; same = refl })
  execute-Keeps Op.and n vm good g b plain =
      Keeps-cpu (CpuOk-op_and g.cpu_ok) (record { wf = g; same = refl })
  execute-Keeps Op.or n vm good g b plain =
      Keeps-cpu (CpuOk-op_or g.cpu_ok) (record { wf = g; same = refl })
  execute-Keeps Op.not n vm good g b plain =
      Keeps-cpu (CpuOk-op_not g.cpu_ok) (record { wf = g; same = refl })
  execute-Keeps Op.str_push n vm good g b plain =
      with_cpu? (record { wf = g; same = refl }) _
        (Ensures-op_str_push vm.program.string_pool n b g.cpu_ok)
  execute-Keeps Op.str_concat n vm good g b plain =
      Keeps-cpu (CpuOk-stopped g.cpu_ok) (record { wf = g; same = refl })
  execute-Keeps Op.str_len n vm good g b plain =
      Keeps-cpu (CpuOk-op_len g.cpu_ok) (record { wf = g; same = refl })
  execute-Keeps Op.str_val n vm good g b plain =
      Keeps-cpu (CpuOk-op_val g.cpu_ok) (record { wf = g; same = refl })
  execute-Keeps Op.str_chr n vm good g b plain =
      Keeps-cpu (CpuOk-op_chr g.cpu_ok) (record { wf = g; same = refl })
  execute-Keeps Op.str_str n vm good g b plain =
      Keeps-cpu (CpuOk-op_str g.cpu_ok) (record { wf = g; same = refl })
  execute-Keeps Op.str_asc n vm good g b plain =
      Keeps-cpu (CpuOk-op_asc g.cpu_ok) (record { wf = g; same = refl })
  execute-Keeps Op.str_left n vm good g b plain = absurd plain
  execute-Keeps Op.str_right n vm good g b plain =
      with_cpu? (record { wf = g; same = refl }) _ (Ensures-op_right g.cpu_ok)
  execute-Keeps Op.str_mid n vm good g b plain = absurd plain
  execute-Keeps Op.str_mid_2 n vm good g b plain = absurd plain
  execute-Keeps Op.fn_err n vm good g b plain =
      Keeps-cpu (CpuOk-op_fn_err g.cpu_ok) (record { wf = g; same = refl })
  execute-Keeps Op.array_get_1d n vm good g b plain =
      with_store (record { wf = g; same = refl }) _
        (Ensures-array_get_1d n false b g.store_ok g.cpu_ok)
  execute-Keeps Op.array_set_1d n vm good g b plain =
      with_store (record { wf = g; same = refl }) _
        (Ensures-array_set_1d n false b g.store_ok g.cpu_ok)
  execute-Keeps Op.array_get_2d n vm good g b plain =
      with_store (record { wf = g; same = refl }) _
        (Ensures-array_get_2d n false b g.store_ok g.cpu_ok)
  execute-Keeps Op.array_set_2d n vm good g b plain =
      with_store (record { wf = g; same = refl }) _
        (Ensures-array_set_2d n false b g.store_ok g.cpu_ok)
  execute-Keeps Op.dim_1d n vm good g b plain =
      let s = slot_kind _ n b in
      with_store (record { wf = g; same = refl }) _
        (Ensures-op_dim_1d n s.0 s.1 g.store_ok g.cpu_ok)
  execute-Keeps Op.dim_2d n vm good g b plain = absurd plain
  execute-Keeps Op.str_array_get_1d n vm good g b plain =
      with_store (record { wf = g; same = refl }) _
        (Ensures-array_get_1d n true b g.store_ok g.cpu_ok)
  execute-Keeps Op.str_array_set_1d n vm good g b plain =
      with_store (record { wf = g; same = refl }) _
        (Ensures-array_set_1d n true b g.store_ok g.cpu_ok)
  execute-Keeps Op.str_array_get_2d n vm good g b plain =
      with_store (record { wf = g; same = refl }) _
        (Ensures-array_get_2d n true b g.store_ok g.cpu_ok)
  execute-Keeps Op.str_array_set_2d n vm good g b plain =
      with_store (record { wf = g; same = refl }) _
        (Ensures-array_set_2d n true b g.store_ok g.cpu_ok)
  execute-Keeps Op.jump n vm good g b plain =
      Keeps-cpu (CpuOk-pc n g.cpu_ok) (record { wf = g; same = refl })
  execute-Keeps Op.jump_if_false n vm good g b plain =
      Keeps-cpu (CpuOk-op_jump_if true n g.cpu_ok) (record { wf = g; same = refl })
  execute-Keeps Op.jump_if_true n vm good g b plain =
      Keeps-cpu (CpuOk-op_jump_if false n g.cpu_ok) (record { wf = g; same = refl })
  execute-Keeps Op.jump_line n vm good g b plain =
      Keeps-cpu (CpuOk-op_jump_line _ false g.cpu_ok) (record { wf = g; same = refl })
  execute-Keeps Op.gosub n vm good g b plain =
      Keeps-cpu (CpuOk-op_gosub n g.cpu_ok) (record { wf = g; same = refl })
  execute-Keeps Op.gosub_line n vm good g b plain =
      Keeps-cpu (CpuOk-op_jump_line _ true g.cpu_ok) (record { wf = g; same = refl })
  execute-Keeps Op.return n vm good g b plain =
      Keeps-cpu (CpuOk-op_return g.cpu_ok) (record { wf = g; same = refl })
  execute-Keeps Op.on_goto n vm good g b plain =
      with_cpu? (record { wf = g; same = refl }) _
        (Ensures-op_on cast vm.program.code false n b good.code_small g.cpu_ok)
  execute-Keeps Op.on_gosub n vm good g b plain =
      with_cpu? (record { wf = g; same = refl }) _
        (Ensures-op_on cast vm.program.code true n b good.code_small g.cpu_ok)
  execute-Keeps Op.for_init n vm good g b plain =
      with_store (record { wf = g; same = refl }) _ (Ensures-op_for_init g.cpu_ok g.store_ok n b)
  execute-Keeps Op.for_next n vm good g b plain =
      with_store (record { wf = g; same = refl }) _
        (Ensures-op_for_next vm.program.var_table n g.store_ok g.cpu_ok)
  execute-Keeps Op.print_num n vm good g b plain =
      Keeps-op_print_num (record { wf = g; same = refl })
  execute-Keeps Op.print_str n vm good g b plain =
      Keeps-op_print_str (record { wf = g; same = refl })
  execute-Keeps Op.print_newline n vm good g b plain =
      Keeps-op_print_newline (record { wf = g; same = refl })
  execute-Keeps Op.print_space n vm good g b plain =
      Keeps-op_print_space (record { wf = g; same = refl })
  execute-Keeps Op.print_tab n vm good g b plain =
      Keeps-op_print_tab (record { wf = g; same = refl })
  execute-Keeps Op.tab_func n vm good g b plain = Keeps-op_tab_func (record { wf = g; same = refl })
  execute-Keeps Op.print_nosep n vm good g b plain =
      Keeps-op_print_nosep (record { wf = g; same = refl })
  execute-Keeps Op.input_num n vm good g b plain =
      Ensures-op_input_num n b (record { wf = g; same = refl })
  execute-Keeps Op.input_str n vm good g b plain =
      Ensures-op_input_str n b (record { wf = g; same = refl })
  execute-Keeps Op.input_prompt n vm good g b plain =
      Ensures-op_input_prompt n b (record { wf = g; same = refl })
  execute-Keeps Op.open_file n vm good g b plain = Ensures-op_open (record { wf = g; same = refl })
  execute-Keeps Op.close n vm good g b plain = Ensures-op_close (record { wf = g; same = refl })
  execute-Keeps Op.get n vm good g b plain = Ensures-op_get (record { wf = g; same = refl })
  execute-Keeps Op.put n vm good g b plain = Ensures-op_put (record { wf = g; same = refl })
  execute-Keeps Op.note n vm good g b plain = Ensures-op_note (record { wf = g; same = refl })
  execute-Keeps Op.point n vm good g b plain = absurd plain
  execute-Keeps Op.status n vm good g b plain =
      with_cpu? (record { wf = g; same = refl }) _
        (Ensures-op_status (record { wf = g; same = refl }))
  execute-Keeps Op.xio n vm good g b plain = absurd plain
  execute-Keeps Op.data_read_num n vm good g b plain =
      with_data (record { wf = g; same = refl }) _
        (Ensures-op_data_read_num vm.program n vm.data_pointer b g.store_ok g.cpu_ok good.data_ok)
  execute-Keeps Op.data_read_str n vm good g b plain =
      with_data (record { wf = g; same = refl }) _
        (Ensures-op_data_read_str vm.program n vm.data_pointer b g.store_ok g.cpu_ok good.data_ok)
  execute-Keeps Op.set_print_channel n vm good g b plain =
      Keeps-op_set_print_channel (record { wf = g; same = refl })
  execute-Keeps Op.func_sin n vm good g b plain =
      Keeps-cpu (CpuOk-op_angle h.sin vm.deg_mode g.cpu_ok) (record { wf = g; same = refl })
  execute-Keeps Op.func_cos n vm good g b plain =
      Keeps-cpu (CpuOk-op_angle h.cos vm.deg_mode g.cpu_ok) (record { wf = g; same = refl })
  execute-Keeps Op.func_tan n vm good g b plain =
      Keeps-cpu (CpuOk-op_angle h.tan vm.deg_mode g.cpu_ok) (record { wf = g; same = refl })
  execute-Keeps Op.func_atn n vm good g b plain =
      Keeps-cpu (CpuOk-op_atn vm.deg_mode g.cpu_ok) (record { wf = g; same = refl })
  execute-Keeps Op.func_exp n vm good g b plain =
      Keeps-cpu (CpuOk-op_unary h.exp g.cpu_ok) (record { wf = g; same = refl })
  execute-Keeps Op.func_log n vm good g b plain =
      Keeps-cpu (CpuOk-op_log g.cpu_ok) (record { wf = g; same = refl })
  execute-Keeps Op.func_clog n vm good g b plain =
      Keeps-cpu (CpuOk-op_clog g.cpu_ok) (record { wf = g; same = refl })
  execute-Keeps Op.func_sqr n vm good g b plain =
      Keeps-cpu (CpuOk-op_sqr g.cpu_ok) (record { wf = g; same = refl })
  execute-Keeps Op.func_abs n vm good g b plain =
      Keeps-cpu (CpuOk-op_unary h.fabs g.cpu_ok) (record { wf = g; same = refl })
  execute-Keeps Op.func_int n vm good g b plain =
      Keeps-cpu (CpuOk-op_unary h.floor g.cpu_ok) (record { wf = g; same = refl })
  execute-Keeps Op.func_rnd n vm good g b plain =
      Keeps-random
        (Keeps-cpu (CpuOk-next (CpuOk-vm_push_number _ (CpuOk-vm_pop_number g.cpu_ok)))
          (record { wf = g; same = refl }))
        _
  execute-Keeps Op.func_sgn n vm good g b plain =
      Keeps-cpu (CpuOk-op_sgn g.cpu_ok) (record { wf = g; same = refl })
  execute-Keeps Op.trap n vm good g b plain =
      Keeps-cpu (CpuOk-next (CpuOk-trap n true g.cpu_ok)) (record { wf = g; same = refl })
  execute-Keeps Op.trap_disable n vm good g b plain =
      Keeps-cpu (CpuOk-next (CpuOk-trap _ false g.cpu_ok)) (record { wf = g; same = refl })
  execute-Keeps Op.end n vm good g b plain =
      Keeps-cpu (CpuOk-stopped g.cpu_ok) (record { wf = g; same = refl })
  execute-Keeps Op.stop n vm good g b plain =
      Keeps-cpu (CpuOk-stopped g.cpu_ok) (record { wf = g; same = refl })
  execute-Keeps Op.restore n vm good g b plain =
      Keeps-data_pointer (Keeps-next (record { wf = g; same = refl })) 0
  execute-Keeps Op.restore_line n vm good g b plain =
      Keeps-data_pointer (Keeps-next (record { wf = g; same = refl })) 0
  execute-Keeps Op.deg n vm good g b plain =
      Keeps-deg_mode (Keeps-next (record { wf = g; same = refl })) true
  execute-Keeps Op.rad n vm good g b plain =
      Keeps-deg_mode (Keeps-next (record { wf = g; same = refl })) false
  execute-Keeps Op.randomize n vm good g b plain =
      Keeps-random
        (Keeps-cpu (CpuOk-next (CpuOk-vm_pop_number g.cpu_ok)) (record { wf = g; same = refl })) _
  execute-Keeps Op.clr n vm good g b plain =
      let r = BothOk-op_clr g.store_ok g.cpu_ok in
      Keeps-store r.1 (Keeps-cpu r.0 (record { wf = g; same = refl }))
  execute-Keeps Op.pop_gosub n vm good g b plain =
      Keeps-cpu (CpuOk-op_pop_gosub g.cpu_ok) (record { wf = g; same = refl })
  execute-Keeps Op.nop n vm good g b plain =
      Keeps-cpu (CpuOk-next g.cpu_ok) (record { wf = g; same = refl })
  execute-Keeps Op.halt n vm good g b plain =
      Keeps-cpu (CpuOk-stopped g.cpu_ok) (record { wf = g; same = refl })
  execute-Keeps Op.func_peek n vm good g b plain =
      with_cpu? (record { wf = g; same = refl }) _ (Ensures-op_peek vm.memory g.cpu_ok)
  execute-Keeps Op.poke n vm good g b plain =
      with_memory (record { wf = g; same = refl }) _ (Ensures-op_poke vm.memory g.cpu_ok)
  execute-Keeps (Op.other x) n vm good g b plain =
      Keeps-cpu (CpuOk-stopped g.cpu_ok) (record { wf = g; same = refl })
