-- ===== src/Vm/Safety/Variables.antt =====
-- The opcodes that read and write variables, constants, jump tables and DATA are defined on operands
-- in range, and keep the invariant.
use basset_lang.Prelude.{
  ℕ, ◌<◌, Bool, Option, some, List, length, get_elem?, set, store_at, length-set, arith, Ensures,
  Ensures-bind, Ensures-get, Ensures-store_at,
}
use basset_lang.Host.{Host, Str}
use basset_lang.Vm.State.{Cpu, Store}
use basset_lang.Vm.Stack.{vm_pop_number, vm_pop_string}
use basset_lang.Vm.Strings.{op_str_push}
use basset_lang.Vm.Jumps.{
  op_push_const, op_push_var, op_str_push_var, op_pop_var, op_str_pop_var, op_for_init, text_of,
}
use basset_lang.Vm.Safety.Invariant.{CpuOk, StoreOk}
use basset_lang.Vm.Safety.Control.{
  CpuOk-next, CpuOk-vm_push_number, CpuOk-vm_push_string, CpuOk-vm_pop_number, CpuOk-vm_pop_string,
  CpuOk-vm_for_push,
}

module _ {h : Host} where
  abbrev pub BothOk : List Bool → Cpu h × Store h → Type 0
  BothOk ks r = CpuOk (length ks) r.0 × StoreOk ks r.1

module _ {h : Host} {n : ℕ} where
  pub Ensures-op_push_const :
      (pool : List h.Double) (i : ℕ) {c : Cpu h}
      → i < length pool
      → CpuOk n c
      → Ensures (CpuOk (n)) (op_push_const pool i c)
  unfolding op_push_const
  Ensures-op_push_const pool i b w =
      Ensures-bind (λ _. Unit {0}) _ (get_elem? pool i) _ (Ensures-get _ pool i b (λ _ _. tt))
        λ v _. CpuOk-next (CpuOk-vm_push_number v w)

  pub Ensures-op_str_push :
      (pool : List Str) (i : ℕ) {c : Cpu h}
      → i < length pool
      → CpuOk n c
      → Ensures (CpuOk (n)) (op_str_push pool i c)
  unfolding op_str_push
  Ensures-op_str_push pool i b w =
      Ensures-bind (λ _. Unit {0}) _ (get_elem? pool i) _ (Ensures-get _ pool i b (λ _ _. tt))
        λ v _. CpuOk-next (CpuOk-vm_push_string v w)

module _ {h : Host} {ks : List Bool} where
  pub StoreOk-num_vars :
      {s : Store h} (i : ℕ) (d : h.Double)
      → StoreOk ks s
      → StoreOk ks (record s { num_vars = set s.num_vars i d })
  StoreOk-num_vars {s} i d ok = record {
    numbers_fit = omega (arith, length-set s.num_vars i d, ok.numbers_fit);
    strings_fit = ok.strings_fit;
    arrays_ok = ok.arrays_ok;
  }

  pub StoreOk-str_vars :
      {s : Store h} (i : ℕ) (t : Option Str)
      → StoreOk ks s
      → StoreOk ks (record s { str_vars = set s.str_vars i t })
  StoreOk-str_vars {s} i t ok = record {
    numbers_fit = ok.numbers_fit;
    strings_fit = omega (arith, length-set s.str_vars i t, ok.strings_fit);
    arrays_ok = ok.arrays_ok;
  }

  module _ {c : Cpu h} (w : CpuOk (length ks) c) where
    module _ {s : Store h} (ok : StoreOk ks s) (i : ℕ) (b : i < length ks) where
      pub Ensures-op_push_var : Ensures (CpuOk (length ks)) (op_push_var i s c)
      unfolding op_push_var
      Ensures-op_push_var =
          Ensures-bind (λ _. Unit {0}) _ (get_elem? s.num_vars i) _
            (Ensures-get _ s.num_vars i (omega (arith, ok.numbers_fit)) (λ _ _. tt))
            λ v _. CpuOk-next (CpuOk-vm_push_number v w)

      pub Ensures-op_str_push_var : Ensures (CpuOk (length ks)) (op_str_push_var i s c)
      unfolding op_str_push_var
      Ensures-op_str_push_var =
          Ensures-bind (λ _. Unit {0}) _ (get_elem? s.str_vars i) _
            (Ensures-get _ s.str_vars i (omega (arith, ok.strings_fit)) (λ _ _. tt))
            λ v _. CpuOk-next (CpuOk-vm_push_string (text_of v) w)

      -- A variable takes a value.
      pub Ensures-num_var :
          (d : h.Double)
          → Ensures (λ xs. StoreOk ks (record s { num_vars = xs })) (store_at s.num_vars i d)
      Ensures-num_var d =
          Ensures-store_at _ s.num_vars i d (omega (arith, ok.numbers_fit))
            (StoreOk-num_vars i d ok)

      pub Ensures-str_var :
          (t : Option Str)
          → Ensures (λ xs. StoreOk ks (record s { str_vars = xs })) (store_at s.str_vars i t)
      Ensures-str_var t =
          Ensures-store_at _ s.str_vars i t (omega (arith, ok.strings_fit))
            (StoreOk-str_vars i t ok)

      pub Ensures-op_pop_var : Ensures (BothOk ks) (op_pop_var i s c)
      unfolding op_pop_var
      Ensures-op_pop_var =
          Ensures-bind _ _ (store_at s.num_vars i (vm_pop_number c).0) _ (Ensures-num_var _)
            λ xs p. (CpuOk-next (CpuOk-vm_pop_number w), p)

      pub Ensures-op_str_pop_var : Ensures (BothOk ks) (op_str_pop_var i s c)
      unfolding op_str_pop_var
      Ensures-op_str_pop_var =
          Ensures-bind _ _ (store_at s.str_vars i (some (vm_pop_string c).0)) _ (Ensures-str_var _)
            λ xs p. (CpuOk-next (CpuOk-vm_pop_string w), p)

      pub Ensures-op_for_init : Ensures (BothOk ks) (op_for_init i s c)
      unfolding op_for_init
      Ensures-op_for_init = Ensures-bind _ _ (store_at s.num_vars i _) _ (Ensures-num_var _) λ xs p.
          (
            CpuOk-next (
                CpuOk-vm_for_push _ b
                  (CpuOk-vm_pop_number (CpuOk-vm_pop_number (CpuOk-vm_pop_number w)))),
            p,
          )
