-- ===== src/Vm/Safety/Parts.antt =====
-- From the invariant of a part of the machine to that of the machine, for the cases of `execute`.
use basset_lang.Prelude.{
  ℕ, ◌<◌, ◌≡◌, Bool, Option, some, List, length, get_elem?, get_elem?-some, Ensures, Ensures-bind,
  ◌>>=◌,
}
use basset_lang.Host.{Host}
use basset_lang.Program.{CompiledProgram}
use basset_lang.Vm.State.{Cpu, Store, Random, Vm}
use basset_lang.Vm.Safety.Invariant.{CpuOk}
use basset_lang.Vm.Safety.Variables.{BothOk}
use basset_lang.Vm.Safety.Io.{Keeps, Keeps-cpu, Keeps-store}
use basset_lang.Vm.Safety.Reads.{ReadOk}

pub slot_kind : (ks : List Bool) (i : ℕ) → i < length ks → (k : Bool) × (get_elem? ks i ≡ some k)
slot_kind ks i b = get_elem?-some ks i b

module _ {h : Host} {ks : List Bool} {p : CompiledProgram h} {vm : Vm h} (k : Keeps ks p vm) where
  -- The parts of the machine that a case works on.
  pub with_cpu? :
      (r : Option (Cpu h))
      → Ensures (CpuOk (length ks)) r
      → Ensures (Keeps ks p) (r >>= λ c. some (record vm { cpu = c }))
  with_cpu? r e = Ensures-bind _ _ r _ e (λ c w. Keeps-cpu w k)

  pub with_store :
      (r : Option (Cpu h × Store h))
      → Ensures (BothOk ks) r
      → Ensures (Keeps ks p) (r >>= λ r. some (record vm { cpu = r.0; store = r.1 }))
  with_store r e = Ensures-bind _ _ r _ e (λ r w. Keeps-store w.1 (Keeps-cpu w.0 k))

  pub Keeps-random : (r : Random h) → Keeps ks p (record vm { random = r })
  Keeps-random r = record {
    wf = record { cpu_ok = k.wf.cpu_ok; store_ok = k.wf.store_ok; channels_ok = k.wf.channels_ok };
    same = k.same;
  }

  Keeps-memory : (m : ℕ → ℕ) → Keeps ks p (record vm { memory = m })
  Keeps-memory r = record {
    wf = record { cpu_ok = k.wf.cpu_ok; store_ok = k.wf.store_ok; channels_ok = k.wf.channels_ok };
    same = k.same;
  }

  pub Keeps-data_pointer : (i : ℕ) → Keeps ks p (record vm { data_pointer = i })
  Keeps-data_pointer r = record {
    wf = record { cpu_ok = k.wf.cpu_ok; store_ok = k.wf.store_ok; channels_ok = k.wf.channels_ok };
    same = k.same;
  }

  pub Keeps-deg_mode : (b : Bool) → Keeps ks p (record vm { deg_mode = b })
  Keeps-deg_mode r = record {
    wf = record { cpu_ok = k.wf.cpu_ok; store_ok = k.wf.store_ok; channels_ok = k.wf.channels_ok };
    same = k.same;
  }

module _ {h : Host} {ks : List Bool} {p : CompiledProgram h} {vm : Vm h} (k : Keeps ks p vm) where
  pub with_data :
      (r : Option (Cpu h × Store h × ℕ))
      → Ensures (ReadOk ks) r
      → Ensures
          (Keeps ks p)
          (r >>= λ r. some (record vm { cpu = r.0; store = r.1; data_pointer = r.2 }))
  with_data r e =
      Ensures-bind _ _ r _ e (λ r w. Keeps-data_pointer (Keeps-store w.1 (Keeps-cpu w.0 k)) r.2)

  pub with_memory :
      (r : Option (Cpu h × (ℕ → ℕ)))
      → Ensures (λ r. CpuOk (length ks) r.0) r
      → Ensures (Keeps ks p) (r >>= λ r. some (record vm { cpu = r.0; memory = r.1 }))
  with_memory r e = Ensures-bind _ _ r _ e (λ r w. Keeps-memory (Keeps-cpu w k) r.1)
