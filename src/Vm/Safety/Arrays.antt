-- ===== src/Vm/Safety/Arrays.antt =====
-- The array opcodes are defined and keep the invariant.
use basset_lang.Prelude.{
  ℕ, suc, ◌≡◌, refl, ap, ◌∙◌, ◌<◌, ◌≤◌, ◌*◌, ◌%◌, ◌^◌, Bool, true, false, ◌&&◌, ltb, ltb→lt, Option,
  some, List, [], ◌∷◌, length, get_elem?, some_in_range, arith, Ensures, Ensures-bind, Ensures-if,
  store_at-some,
}
use basset_lang.Host.{Host, Str}
use basset_lang.Program.{VarType}
use basset_lang.Vm.State.{Value, Cpu, ArrayData, Store}
use basset_lang.Vm.Stack.{vm_pop_number}
use basset_lang.Vm.Arrays.{
  load_cell, store_cell, dimension, auto_dim_1d, auto_dim_2d, put_array, bounds_error, pop_value,
  read_checked, write_checked, array_get_1d, array_set_1d, array_get_2d, array_set_2d, op_dim_1d,
  op_dim_2d, extent, op_clr, clear_numbers, clear_strings, clear_arrays,
}
use basset_lang.Vm.Safety.Invariant.{
  CpuOk, StoreOk, ArrayOk, ArraysOk, get-ArraysOk, set-ArraysOk, length-ArraysOk,
}
use basset_lang.Vm.Safety.Control.{
  CpuOk-next, CpuOk-vm_error, CpuOk-vm_push, CpuOk-vm_pop_number, CpuOk-vm_pop_string, CpuOk-if,
}
use basset_lang.Vm.Safety.Variables.{BothOk}
use basset_lang.Vm.Safety.Cells.{
  IsOfKind, IsReady, InCells, IsReady-dimension, IsReady-auto_dim_1d, IsReady-auto_dim_2d,
  ArrayOk-IsReady, Ensures-load_cell, Ensures-store_cell, InCells-1d, InCells-2d,
}

module _ {h : Host} {n : ℕ} where
  CpuOk-bounds_error : {c : Cpu h} → CpuOk n c → CpuOk n (bounds_error c)
  unfolding bounds_error
  CpuOk-bounds_error w = let w₁ = CpuOk-vm_error _ _ w in CpuOk-if _ w₁ (CpuOk-next w₁)

  CpuOk-pop_value : (k : Bool) {c : Cpu h} → CpuOk n c → CpuOk n (pop_value k c).1
  unfolding pop_value
  CpuOk-pop_value true w = CpuOk-vm_pop_string w
  CpuOk-pop_value false w = CpuOk-vm_pop_number w

  Ensures-read_checked :
      (test k : Bool) (a : ArrayData h) (i : ℕ) {c : Cpu h}
      → (test ≡ true → InCells k i a.u)
      → CpuOk n c
      → Ensures (CpuOk n) (read_checked test k a i c)
  unfolding read_checked
  Ensures-read_checked false k a i p w = CpuOk-bounds_error w
  Ensures-read_checked true k a i p w =
      Ensures-bind _ _ (load_cell k a.u i) _ (Ensures-load_cell k a.u i (p refl))
        λ v _. CpuOk-next (CpuOk-vm_push v w)

kind_of_popped : {h : Host} (k : Bool) (c : Cpu h) → IsOfKind k (pop_value k c).0
unfolding pop_value
kind_of_popped true c = tt
kind_of_popped false c = tt

module _ {h : Host} {ks : List Bool} {s : Store h} (ok : StoreOk ks s) (slot : ℕ) (k : Bool)
    (e : get_elem? ks slot ≡ some k) where
  Ensures-slot : Ensures (ArrayOk k) (get_elem? s.arrays slot)
  Ensures-slot =
      let (a, found, good) = get-ArraysOk ks s.arrays slot k ok.arrays_ok e in rw found good

  slot_in_range : slot < length s.arrays
  slot_in_range = omega (arith, some_in_range ks slot k e, length-ArraysOk ks s.arrays ok.arrays_ok)

  Ensures-put_array : (a : ArrayData h) → ArrayOk k a → Ensures (StoreOk ks) (put_array slot a s)
  unfolding put_array
  Ensures-put_array a good = rw (store_at-some s.arrays slot a slot_in_range) (record {
    numbers_fit = ok.numbers_fit;
    strings_fit = ok.strings_fit;
    arrays_ok = set-ArraysOk ks s.arrays slot k a ok.arrays_ok e good;
  })

filled : (rows cols : ℕ) → 0 < cols → rows * cols < 2 ^ 64 → rows ≤ rows * cols % 2 ^ 64
filled rows cols p small = let q : rows ≤ rows * cols = grind arith in omega arith

both_lt : (a b c d : ℕ) → (ltb a b && ltb c d) ≡ true → (a < b) × (c < d)
both_lt a b c d t = ground arith

module _ {h : Host} {ks : List Bool} where
  Ensures-write_checked :
      (test k : Bool) (a : ArrayData h) (i : ℕ) (v : Value h) (slot : ℕ) {s : Store h} {c : Cpu h}
      → get_elem? ks slot ≡ some k
      → IsReady k a
      → IsOfKind k v
      → (test ≡ true → InCells k i a.u)
      → StoreOk ks s
      → CpuOk (length ks) c
      → Ensures (BothOk ks) (write_checked test a i v slot s c)
  unfolding write_checked
  Ensures-write_checked false k a i v slot e r q p ok w = (CpuOk-bounds_error w, ok)
  Ensures-write_checked true k a i v slot {s} e r q p ok w =
      Ensures-bind _ _ (store_cell a.u i v) _
        (Ensures-store_cell k a.dim1 a.dim2 a.u i v (p refl) q r.1)
        λ u good.
          Ensures-bind _ _ (put_array slot (record a { u = u }) s) _
            (Ensures-put_array ok slot k e (record a { u = u }) (r.0, good))
            λ s' ok'. (CpuOk-next w, ok')

module _ {h : Host} {ks : List Bool} {s : Store h} {c : Cpu h} (slot : ℕ) (k : Bool)
    (e : get_elem? ks slot ≡ some k) (ok : StoreOk ks s) (w : CpuOk (length ks) c) where
  pub Ensures-array_get_1d : Ensures (BothOk ks) (array_get_1d k slot s c)
  unfolding array_get_1d
  Ensures-array_get_1d =
      let idx = h.to_size (vm_pop_number c).0 in
      Ensures-bind _ _ (get_elem? s.arrays slot) _ (Ensures-slot ok slot k e) λ old good.
        let a = auto_dim_1d k old in
        let r = IsReady-auto_dim_1d k old good in
        Ensures-bind _ _ (put_array slot a s) _
          (Ensures-put_array ok slot k e a (ArrayOk-IsReady k a r))
          λ s' ok'.
            Ensures-bind _ _ (read_checked (ltb idx a.dim1) k a idx _) _
              (Ensures-read_checked (ltb idx a.dim1) k a idx
                (λ t. InCells-1d k a.dim1 a.dim2 idx a.u r.1 (ltb→lt _ _ t))
                (CpuOk-vm_pop_number w))
              λ c' w'. (w', ok')

  pub Ensures-array_get_2d : Ensures (BothOk ks) (array_get_2d k slot s c)
  unfolding array_get_2d
  Ensures-array_get_2d =
      let col = h.to_size (vm_pop_number c).0 in
      let row = h.to_size (vm_pop_number (vm_pop_number c).1).0 in
      Ensures-bind _ _ (get_elem? s.arrays slot) _ (Ensures-slot ok slot k e) λ old good.
        let a = auto_dim_2d k old in
        let r = IsReady-auto_dim_2d k old good in
        let test = ltb row a.dim1 && ltb col a.dim2 in
        Ensures-bind _ _ (put_array slot a s) _
          (Ensures-put_array ok slot k e a (ArrayOk-IsReady k a r))
          λ s' ok'.
            Ensures-bind _ _ (read_checked test k a _ _) _
              (Ensures-read_checked test k a _
                (λ t.
                  let (p, q) = both_lt row a.dim1 col a.dim2 t in
                  InCells-2d k a.dim1 a.dim2 row col a.u r.1 p q)
                (CpuOk-vm_pop_number (CpuOk-vm_pop_number w)))
              λ c' w'. (w', ok')

  pub Ensures-array_set_1d : Ensures (BothOk ks) (array_set_1d k slot s c)
  unfolding array_set_1d
  Ensures-array_set_1d =
      let c₁ = (pop_value k c).1 in
      let idx = h.to_size (vm_pop_number c₁).0 in
      Ensures-if _ (ltb (length c.stack) 2) _ _ (λ _. (CpuOk-vm_error _ _ w, ok))
        λ _. Ensures-bind _ _ (get_elem? s.arrays slot) _ (Ensures-slot ok slot k e) λ old good.
          let a = auto_dim_1d k old in
          let r = IsReady-auto_dim_1d k old good in
          Ensures-bind _ _ (put_array slot a s) _
            (Ensures-put_array ok slot k e a (ArrayOk-IsReady k a r))
            λ s' ok'.
              Ensures-write_checked (ltb idx a.dim1) k a idx _ slot e r (kind_of_popped k c)
                (λ t. InCells-1d k a.dim1 a.dim2 idx a.u r.1 (ltb→lt _ _ t)) ok'
                (CpuOk-vm_pop_number (CpuOk-pop_value k w))

  pub Ensures-array_set_2d : Ensures (BothOk ks) (array_set_2d k slot s c)
  unfolding array_set_2d
  Ensures-array_set_2d =
      let c₁ = (pop_value k c).1 in
      let col = h.to_size (vm_pop_number c₁).0 in
      let row = h.to_size (vm_pop_number (vm_pop_number c₁).1).0 in
      Ensures-bind _ _ (get_elem? s.arrays slot) _ (Ensures-slot ok slot k e) λ old good.
        let a = auto_dim_2d k old in
        let r = IsReady-auto_dim_2d k old good in
        Ensures-bind _ _ (put_array slot a s) _
          (Ensures-put_array ok slot k e a (ArrayOk-IsReady k a r))
          λ s' ok'.
            Ensures-write_checked (ltb row a.dim1 && ltb col a.dim2) k a _ _ slot e r
              (kind_of_popped k c)
              (λ t.
                let (p, q) = both_lt row a.dim1 col a.dim2 t in
                InCells-2d k a.dim1 a.dim2 row col a.u r.1 p q)
              ok' (CpuOk-vm_pop_number (CpuOk-vm_pop_number (CpuOk-pop_value k w)))

  pub Ensures-op_dim_1d : Ensures (BothOk ks) (op_dim_1d slot s c)
  unfolding op_dim_1d
  Ensures-op_dim_1d =
      Ensures-bind _ _ (get_elem? s.arrays slot) _ (Ensures-slot ok slot k e) λ old good.
        let size = extent (h.to_size (vm_pop_number c).0) in
        let a = dimension {h = h} VarType.var_array_1d old.is_string size 0 size in
        let r : IsReady k a = rw good.0 (
          IsReady-dimension h VarType.var_array_1d k size 0 size (omega arith) (omega arith)
            (omega arith)) in
        Ensures-bind _ _ (put_array slot a s) _
          (Ensures-put_array ok slot k e a (ArrayOk-IsReady k a r))
          λ s' ok'. (CpuOk-next (CpuOk-vm_pop_number w), ok')

  -- The product of the dimensions must not wrap round, nor a row be empty.
  pub Ensures-op_dim_2d :
      0 < extent (h.to_size (vm_pop_number c).0)
      → extent (h.to_size (vm_pop_number (vm_pop_number c).1).0)
          * extent (h.to_size (vm_pop_number c).0)
        < 2 ^ 64
      → Ensures (BothOk ks) (op_dim_2d slot s c)
  unfolding op_dim_2d
  Ensures-op_dim_2d row_filled small =
      Ensures-bind _ _ (get_elem? s.arrays slot) _ (Ensures-slot ok slot k e) λ old good.
        let cols = extent (h.to_size (vm_pop_number c).0) in
        let rows = extent (h.to_size (vm_pop_number (vm_pop_number c).1).0) in
        let cells = rows * cols % 2 ^ 64 in
        let a = dimension {h = h} VarType.var_array_2d old.is_string rows cols cells in
        let r : IsReady k a = rw good.0 (
          IsReady-dimension h VarType.var_array_2d k rows cols cells
            (filled rows cols row_filled small) (omega arith) small) in
        Ensures-bind _ _ (put_array slot a s) _
          (Ensures-put_array ok slot k e a (ArrayOk-IsReady k a r))
          λ s' ok'. (CpuOk-next (CpuOk-vm_pop_number (CpuOk-vm_pop_number w)), ok')

length-clear_numbers : (h : Host) (xs : List h.Double) → length (clear_numbers h xs) ≡ length xs
unfolding clear_numbers
length-clear_numbers h [] = refl
length-clear_numbers h (x ∷ xs) = ap suc (length-clear_numbers h xs)

length-clear_strings : (xs : List (Option Str)) → length (clear_strings xs) ≡ length xs
unfolding clear_strings
length-clear_strings [] = refl
length-clear_strings (x ∷ xs) = ap suc (length-clear_strings xs)

module _ {h : Host} where
  clear_arrays-ArraysOk :
      (ks : List Bool) (arrays : List (ArrayData h))
      → ArraysOk ks arrays
      → ArraysOk ks (clear_arrays arrays)
  unfolding clear_arrays
  clear_arrays-ArraysOk [] [] ok = ok
  clear_arrays-ArraysOk [] (a ∷ arrays) ok = absurd ok
  clear_arrays-ArraysOk (k ∷ ks) [] ok = absurd ok
  clear_arrays-ArraysOk (k ∷ ks) (a ∷ arrays) ok =
      ((ok.0.0, tt), clear_arrays-ArraysOk ks arrays ok.1)

  pub BothOk-op_clr :
      {ks : List Bool} {s : Store h} {c : Cpu h}
      → StoreOk ks s
      → CpuOk (length ks) c
      → BothOk ks (op_clr s c)
  unfolding op_clr
  BothOk-op_clr {ks} {s} {c} ok w = (
    CpuOk-next w,
    record {
      numbers_fit = length-clear_numbers h s.num_vars ∙ ok.numbers_fit;
      strings_fit = length-clear_strings s.str_vars ∙ ok.strings_fit;
      arrays_ok = clear_arrays-ArraysOk ks s.arrays ok.arrays_ok;
    },
  )
