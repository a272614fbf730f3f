-- ===== src/Vm/Safety/Run.antt =====
-- Whole runs: `vm_init` and the loop of `vm_execute`.
use basset_lang.Prelude.{
  ℕ, suc, ◌≡◌, refl, ap, some, List, [], ◌∷◌, length, length-replicate, get_elem?, arith,
}
use basset_lang.Host.{Host}
use basset_lang.Bytecode.{Instruction}
use basset_lang.Program.{VariableInfo, CompiledProgram}
use basset_lang.Vm.State.{Vm}
use basset_lang.Vm.Execute.{vm_init, init_arrays}
use basset_lang.Vm.Safety.Invariant.{ArraysOk, IsWf}
use basset_lang.Vm.Safety.Programs.{kinds, IsPlain}

init_arrays-ArraysOk :
    (h : Host) (table : List VariableInfo) → ArraysOk (kinds table) (init_arrays {h = h} table)
unfolding init_arrays
init_arrays-ArraysOk h [] = tt
init_arrays-ArraysOk h (v ∷ table) = ((refl, tt), init_arrays-ArraysOk h table)

length-kinds : (table : List VariableInfo) → length (kinds table) ≡ length table
length-kinds [] = refl
length-kinds (v ∷ table) = ap suc (length-kinds table)

module _ {h : Host} where
  -- The code has no opcode that can overflow an integer or free a string twice.
  abbrev pub PlainCode : CompiledProgram h → Type 0
  PlainCode p =
      (pc : ℕ) (inst : Instruction) → get_elem? p.code pc ≡ some inst → IsPlain inst.opcode

  -- The machine starts in a state that satisfies its invariant.
  pub vm_init-IsWf : (p : CompiledProgram h) (w : h.World) → IsWf (kinds p.var_table) (vm_init p w)
  unfolding vm_init
  vm_init-IsWf p w = record {
    cpu_ok = record {
      stack_room = omega arith;
      stack_fits = omega arith;
      call_room = omega arith;
      call_fits = omega arith;
      for_room = omega arith;
      for_fits = omega arith;
      loops = tt;
    };
    store_ok = record {
      numbers_fit =
          omega (arith, length-replicate {0} (length p.var_table), length-kinds p.var_table);
      strings_fit =
          omega (arith, length-replicate {0} (length p.var_table), length-kinds p.var_table);
      arrays_ok = init_arrays-ArraysOk h p.var_table;
    };
    channels_ok = refl;
  }
