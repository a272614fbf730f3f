-- ===== src/Vm/Safety/Reads.antt =====
-- READ is defined where the entries of DATA lie in their pools.
use mathlib.Core.Path.{subst}
use basset_lang.Prelude.{
  ℕ, zero, suc, ◌+◌, ◌<◌, ◌≡◌, refl, Bool, Option, none, some, List, [], ◌∷◌, length, get_elem?,
  get_elem?-some, store_at, All, arith, Ensures, Ensures-bind, ◌>>=◌, store_at-some,
}
use basset_lang.Host.{Host, Str}
use basset_lang.Program.{
  DataType, data_numeric, data_string, data_null, data_other, DataEntry, CompiledProgram,
}
use basset_lang.Vm.State.{Cpu, Store}
use basset_lang.Vm.Stack.{next, vm_error, err_type_mismatch}
use basset_lang.Vm.Reads.{
  numeric_item, string_item, op_data_read_num, op_data_read_str, out_of_data,
}
use basset_lang.Vm.Safety.Invariant.{CpuOk, StoreOk}
use basset_lang.Vm.Safety.Control.{CpuOk-next, CpuOk-vm_error, CpuOk-if}
use basset_lang.Vm.Safety.Variables.{StoreOk-num_vars, StoreOk-str_vars}
use basset_lang.Vm.Safety.Programs.{EntryOk}

All-get :
    {A : Type 0} (P : A → Type 0) (xs : List A) (i : ℕ) (a : A)
    → All P xs
    → get_elem? xs i ≡ some a
    → P a
All-get P [] i a all e = cc
All-get P (x ∷ xs) zero a all e = let q : x ≡ a = cc in subst P q all.0
All-get P (x ∷ xs) (suc i) a all e = All-get P xs i a all.1 e

module _ {h : Host} where
  abbrev pub ReadOk : List Bool → Cpu h × Store h × ℕ → Type 0
  ReadOk ks r = CpuOk (length ks) r.0 × StoreOk ks r.1

module _ {h : Host} where
  CpuOk-out_of_data : {n : ℕ} {c : Cpu h} → CpuOk n c → CpuOk n (out_of_data c)
  unfolding out_of_data
  CpuOk-out_of_data w = let w₁ = CpuOk-vm_error _ _ w in CpuOk-if _ w₁ (CpuOk-next w₁)

module _ {h : Host} (p : CompiledProgram h) where
  Ensures-numeric_item :
      (type : DataType) (i : ℕ)
      → EntryOk p (record { type = type; index = i })
      → Ensures (λ _. Unit {0}) (numeric_item p type i)
  unfolding numeric_item
  Ensures-numeric_item data_numeric i b =
      let (d, e) = get_elem?-some p.data_numeric_pool i b in rw e tt
  Ensures-numeric_item data_string i b =
      let (d, e) = get_elem?-some p.data_string_pool i b in rw e tt
  Ensures-numeric_item data_null i b = tt
  Ensures-numeric_item (data_other x) i b = tt

  Ensures-string_item :
      (type : DataType) (i : ℕ)
      → EntryOk p (record { type = type; index = i })
      → Ensures (λ _. Unit {0}) (string_item p type i)
  unfolding string_item
  Ensures-string_item data_numeric i b =
      let (d, e) = get_elem?-some p.data_numeric_pool i b in rw e tt
  Ensures-string_item data_string i b =
      let (d, e) = get_elem?-some p.data_string_pool i b in rw e tt
  Ensures-string_item data_null i b = tt
  Ensures-string_item (data_other x) i b = tt

module _ {h : Host} (p : CompiledProgram h) (slot pointer : ℕ) {ks : List Bool} {s : Store h}
    {c : Cpu h} (b : slot < length ks) (ok : StoreOk ks s) (w : CpuOk (length ks) c) where
  num_item_cases :
      (item : Option h.Double)
      → Ensures (ReadOk ks) (elim item [
        | none ↦ some (next (vm_error err_type_mismatch "TYPE MISMATCH IN DATA" c), s, pointer + 1)
        | some value ↦ store_at s.num_vars slot value >>= λ num_vars.
            some (next c, record s { num_vars = num_vars }, pointer + 1)
      ])
  num_item_cases none = (CpuOk-next (CpuOk-vm_error _ _ w), ok)
  num_item_cases (some d) =
      rw (store_at-some s.num_vars slot d (omega (arith, ok.numbers_fit)))
        (CpuOk-next w, StoreOk-num_vars slot d ok)

  str_item_cases :
      (item : Option Str)
      → Ensures (ReadOk ks) (elim item [
        | none ↦ some (vm_error err_type_mismatch "TYPE MISMATCH IN DATA" c, s, pointer + 1)
        | some value ↦ store_at s.str_vars slot (some value) >>= λ str_vars.
            some (next c, record s { str_vars = str_vars }, pointer + 1)
      ])
  str_item_cases none = (CpuOk-vm_error _ _ w, ok)
  str_item_cases (some t) =
      rw (store_at-some s.str_vars slot (some t) (omega (arith, ok.strings_fit)))
        (CpuOk-next w, StoreOk-str_vars slot (some t) ok)

  num_entry_cases :
      (entry : Option DataEntry)
      → ((e : DataEntry) → entry ≡ some e → EntryOk p e)
      → Ensures (ReadOk ks) (elim entry [
        | none ↦ some (out_of_data c, s, pointer)
        | some entry ↦ numeric_item p entry.type entry.index >>= λ item. elim item [
          | none ↦
              some (next (vm_error err_type_mismatch "TYPE MISMATCH IN DATA" c), s, pointer + 1)
          | some value ↦ store_at s.num_vars slot value >>= λ num_vars.
              some (next c, record s { num_vars = num_vars }, pointer + 1)
        ]
      ])
  num_entry_cases none good = (CpuOk-out_of_data w, ok)
  num_entry_cases (some e) good =
      Ensures-bind (λ _. Unit {0}) _ (numeric_item p e.type e.index) _
        (Ensures-numeric_item p e.type e.index (good e refl)) λ item _. num_item_cases item

  str_entry_cases :
      (entry : Option DataEntry)
      → ((e : DataEntry) → entry ≡ some e → EntryOk p e)
      → Ensures (ReadOk ks) (elim entry [
        | none ↦ some (out_of_data c, s, pointer)
        | some entry ↦ string_item p entry.type entry.index >>= λ item. elim item [
          | none ↦ some (vm_error err_type_mismatch "TYPE MISMATCH IN DATA" c, s, pointer + 1)
          | some value ↦ store_at s.str_vars slot (some value) >>= λ str_vars.
              some (next c, record s { str_vars = str_vars }, pointer + 1)
        ]
      ])
  str_entry_cases none good = (CpuOk-out_of_data w, ok)
  str_entry_cases (some e) good =
      Ensures-bind (λ _. Unit {0}) _ (string_item p e.type e.index) _
        (Ensures-string_item p e.type e.index (good e refl)) λ item _. str_item_cases item

  module _ (all : All (EntryOk p) p.data_entries) where
    pub Ensures-op_data_read_num : Ensures (ReadOk ks) (op_data_read_num p slot pointer s c)
    unfolding op_data_read_num
    Ensures-op_data_read_num =
        num_entry_cases (get_elem? p.data_entries pointer)
          (λ e found. All-get (EntryOk p) p.data_entries pointer e all found)

    pub Ensures-op_data_read_str : Ensures (ReadOk ks) (op_data_read_str p slot pointer s c)
    unfolding op_data_read_str
    Ensures-op_data_read_str =
        str_entry_cases (get_elem? p.data_entries pointer)
          (λ e found. All-get (EntryOk p) p.data_entries pointer e all found)
