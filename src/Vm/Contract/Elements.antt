-- ===== src/Vm/Contract/Elements.antt =====
-- Arrays: the element that was set is read back, of an array with DIM as of one without.
use basset_lang.Prelude.{
  ℕ, suc, ◌+◌, ◌*◌, ◌%◌, ◌^◌, ◌<◌, ◌≡◌, refl, arith, Bool, true, false, ◌&&◌, ltb, lt→ltb, some,
  List, ◌∷◌, length, get_elem?, set, store_at-some, get_elem?-set_self, some_in_range, Ensures,
  ◌>>=◌,
}
use basset_lang.Host.{Host}
use basset_lang.Vm.State.{
  Value, number, string, Cpu, Cells, null, numbers, strings, ArrayData, Store,
}
use basset_lang.Vm.Stack.{next, vm_pop, vm_push, vm_pop_number, vm_pop_string}
use basset_lang.Vm.Arrays.{
  array_get_1d, array_set_1d, array_get_2d, array_set_2d, auto_dim_1d, auto_dim_2d, put_array,
  write_checked, read_checked, store_cell, load_cell, pop_value,
}
use basset_lang.Vm.Safety.Invariant.{ArrayOk}
use basset_lang.Vm.Safety.Cells.{
  IsOfKind, IsReady, IsReady-auto_dim_1d, IsReady-auto_dim_2d, InCells, InCells-1d, InCells-2d,
}

two_deep : (n : ℕ) → ltb (suc (suc n)) 2 ≡ false
two_deep n = ground arith

module _ {h : Host} where
  -- A cell after a write holds the value, and is allocated.
  record Written (k : Bool) (i : ℕ) (u : Cells h) (v : Value h) : Type 0 where
    cells : Cells h
    stored : store_cell u i v ≡ some cells
    loaded : load_cell k cells i ≡ some v
    kept_1d : (a : ArrayData h) → auto_dim_1d k (record a { u = cells }) ≡ record a { u = cells }
    kept_2d : (a : ArrayData h) → auto_dim_2d k (record a { u = cells }) ≡ record a { u = cells }

  write_cell :
      (k : Bool) (i : ℕ) (u : Cells h) (v : Value h)
      → InCells k i u
      → IsOfKind k v
      → Written k i u v
  unfolding store_cell load_cell auto_dim_1d auto_dim_2d
  write_cell false i (numbers xs) (number d) inside kind = record {
    cells = numbers (set xs i d);
    stored = rw (store_at-some xs i d inside) refl;
    loaded = rw (get_elem?-set_self xs i d inside) refl;
    kept_1d = λ a. refl;
    kept_2d = λ a. refl;
  }
  write_cell true i (strings xs) (string d) inside kind = record {
    cells = strings (set xs i d);
    stored = rw (store_at-some xs i d inside) refl;
    loaded = rw (get_elem?-set_self xs i d inside) refl;
    kept_1d = λ a. refl;
    kept_2d = λ a. refl;
  }
  write_cell true i null v inside kind = absurd inside
  write_cell false i null v inside kind = absurd inside
  write_cell false i (strings xs) v inside kind = absurd inside
  write_cell true i (numbers xs) v inside kind = absurd inside
  write_cell true i (strings xs) (number d) inside kind = absurd kind
  write_cell false i (numbers xs) (string d) inside kind = absurd kind

  pop_of_kind :
      (k : Bool) (c : Cpu h) (v : Value h) (rest : List (Value h))
      → c.stack ≡ v ∷ rest
      → IsOfKind k v
      → pop_value k c ≡ (v, record c { stack = rest })
  unfolding pop_value vm_pop_number vm_pop_string vm_pop
  pop_of_kind true c (string s) rest st kind = rw st refl
  pop_of_kind false c (number d) rest st kind = rw st refl
  pop_of_kind true c (number d) rest st kind = absurd kind
  pop_of_kind false c (string s) rest st kind = absurd kind

  pop_index :
      (c : Cpu h) (i : h.Double) (rest : List (Value h))
      → c.stack ≡ number i ∷ rest
      → vm_pop_number c ≡ (i, record c { stack = rest })
  unfolding vm_pop_number vm_pop
  pop_index c i rest st = rw st refl

  put_array-some :
      (slot : ℕ) (a b : ArrayData h) (s : Store h)
      → get_elem? s.arrays slot ≡ some b
      → put_array slot a s ≡ some (record s { arrays = set s.arrays slot a })
  unfolding put_array
  put_array-some slot a b s at = rw (store_at-some s.arrays slot a (some_in_range _ _ _ at)) refl

  get_put :
      (slot : ℕ) (a b : ArrayData h) (xs : List (ArrayData h))
      → get_elem? xs slot ≡ some b
      → get_elem? (set xs slot a) slot ≡ some a
  get_put slot a b xs at = get_elem?-set_self xs slot a (some_in_range _ _ _ at)

  -- The store that a write to an array leaves.
  written_store : ℕ → ArrayData h → ArrayData h → Store h → Store h
  written_store slot a b s = record s { arrays = set (set s.arrays slot a) slot b }

  write_checked-some :
      (k : Bool) (a b : ArrayData h) (i slot : ℕ) (v : Value h) (s : Store h) (c : Cpu h)
      → get_elem? s.arrays slot ≡ some b
      → (w : Written k i a.u v)
      → write_checked true a i v slot (record s { arrays = set s.arrays slot a }) c
        ≡ some (next c, written_store slot a (record a { u = w.cells }) s)
  unfolding write_checked written_store
  write_checked-some k a b i slot v s c at w = rw w.stored (
      rw
        (put_array-some slot (record a { u = w.cells }) a
          (record s { arrays = set s.arrays slot a }) (get_put slot a b s.arrays at))
        refl)

  set_1d :
      (k : Bool) (slot : ℕ) (a : ArrayData h) (s : Store h) (c : Cpu h) (v : Value h)
      → (i : h.Double) (rest : List (Value h)) → get_elem? s.arrays slot ≡ some a
      → c.stack ≡ v ∷ number i ∷ rest
      → IsOfKind k v
      → ltb (h.to_size i) (auto_dim_1d k a).dim1 ≡ true
      → (w : Written k (h.to_size i) (auto_dim_1d k a).u v)
      → array_set_1d k slot s c
        ≡ some (
          next (record c { stack = rest }),
          written_store slot (auto_dim_1d k a) (record (auto_dim_1d k a) { u = w.cells }) s,
        )
  unfolding array_set_1d
  set_1d k slot a s c v i rest at st kind inside w =
      let deep : ltb (length c.stack) 2 ≡ false = rw st (two_deep (length rest)) in
      let index = pop_index (record c { stack = number i ∷ rest }) i rest refl in
      rw deep (
        rw (pop_of_kind k c v (number i ∷ rest) st kind) (
          rw index (
            rw at (
              rw (put_array-some slot (auto_dim_1d k a) a s at) (
                rw inside
                  (write_checked-some k (auto_dim_1d k a) a (h.to_size i) slot v s _ at w))))))

  get_1d :
      (k : Bool) (slot : ℕ) (a : ArrayData h) (s : Store h) (d : Cpu h) (v : Value h)
      → (i : h.Double) (rest : List (Value h)) → get_elem? s.arrays slot ≡ some a
      → d.stack ≡ number i ∷ rest
      → auto_dim_1d k a ≡ a
      → ltb (h.to_size i) a.dim1 ≡ true
      → load_cell k a.u (h.to_size i) ≡ some v
      → Ensures (λ r. r.0 ≡ next (vm_push v (record d { stack = rest }))) (array_get_1d k slot s d)
  unfolding array_get_1d read_checked
  get_1d k slot a s d v i rest at st kept inside loaded =
      rw (pop_index d i rest st)
        (rw at (rw kept (rw (put_array-some slot a a s at) (rw inside (rw loaded refl)))))

  -- An element of an array with one index: the write succeeds and the next read of that index of that
  -- array gives the value written. The index is within the bounds, which are 0 to 10 where the array
  -- had no DIM; the value is of the array's kind.
  pub array_get_1d-array_set_1d :
      (k : Bool) (slot : ℕ) (a : ArrayData h) (s : Store h) (c d : Cpu h) (v : Value h)
      → (i : h.Double) (rest rest' : List (Value h)) → get_elem? s.arrays slot ≡ some a
      → ArrayOk k a
      → c.stack ≡ v ∷ number i ∷ rest
      → d.stack ≡ number i ∷ rest'
      → IsOfKind k v
      → h.to_size i < (auto_dim_1d k a).dim1
      → Ensures
          (λ r. r.0 ≡ next (vm_push v (record d { stack = rest' })))
          (array_set_1d k slot s c >>= λ done. array_get_1d k slot done.1 d)
  unfolding written_store
  array_get_1d-array_set_1d k slot a s c d v i rest rest' at ok st st' kind inside =
      let a' = auto_dim_1d k a in
      let ready : IsReady k a' = IsReady-auto_dim_1d k a ok in
      let cell : InCells k (h.to_size i) a'.u =
        InCells-1d k a'.dim1 a'.dim2 (h.to_size i) a'.u ready.1 inside in
      let w = write_cell k (h.to_size i) a'.u v cell kind in
      let bound : ltb (h.to_size i) a'.dim1 ≡ true = lt→ltb _ _ inside in
      rw (set_1d k slot a s c v i rest at st kind bound w) (
        get_1d k slot (record a' { u = w.cells }) _ d v i rest'
          (get_put slot (record a' { u = w.cells }) a' (set s.arrays slot a')
            (get_put slot a' a s.arrays at))
          st' (w.kept_1d a') bound w.loaded)

  set_2d :
      (k : Bool) (slot : ℕ) (a : ArrayData h) (s : Store h) (c : Cpu h) (v : Value h)
      → (row col : h.Double) (rest : List (Value h)) → get_elem? s.arrays slot ≡ some a
      → c.stack ≡ v ∷ number col ∷ number row ∷ rest
      → IsOfKind k v
      → (ltb (h.to_size row) (auto_dim_2d k a).dim1 && ltb (h.to_size col) (auto_dim_2d k a).dim2)
        ≡ true
      → (w : Written k
          ((h.to_size row * (auto_dim_2d k a).dim2 + h.to_size col) % 2 ^ 64)
          (auto_dim_2d k a).u
          v)
      → array_set_2d k slot s c
        ≡ some (
          next (record c { stack = rest }),
          written_store slot (auto_dim_2d k a) (record (auto_dim_2d k a) { u = w.cells }) s,
        )
  unfolding array_set_2d
  set_2d k slot a s c v row col rest at st kind inside w =
      let column =
        pop_index (record c { stack = number col ∷ number row ∷ rest }) col (number row ∷ rest)
          refl in
      let line = pop_index (record c { stack = number row ∷ rest }) row rest refl in
      rw (pop_of_kind k c v (number col ∷ number row ∷ rest) st kind) (
        rw column (
          rw line (
            rw at (
              rw (put_array-some slot (auto_dim_2d k a) a s at)
                (rw inside (write_checked-some k (auto_dim_2d k a) a _ slot v s _ at w))))))

  get_2d :
      (k : Bool) (slot : ℕ) (a : ArrayData h) (s : Store h) (d : Cpu h) (v : Value h)
      → (row col : h.Double) (rest : List (Value h)) → get_elem? s.arrays slot ≡ some a
      → d.stack ≡ number col ∷ number row ∷ rest
      → auto_dim_2d k a ≡ a
      → (ltb (h.to_size row) a.dim1 && ltb (h.to_size col) a.dim2) ≡ true
      → load_cell k a.u ((h.to_size row * a.dim2 + h.to_size col) % 2 ^ 64) ≡ some v
      → Ensures (λ r. r.0 ≡ next (vm_push v (record d { stack = rest }))) (array_get_2d k slot s d)
  unfolding array_get_2d read_checked
  get_2d k slot a s d v row col rest at st kept inside loaded =
      let line = pop_index (record d { stack = number row ∷ rest }) row rest refl in
      rw (pop_index d col (number row ∷ rest) st)
        (rw line (rw at (rw kept (rw (put_array-some slot a a s at) (rw inside (rw loaded refl))))))

  -- An element of an array with two indices: the write succeeds and the next read of those indices of
  -- that array gives the value written. The indices are within the bounds, which are 0 to 10 each
  -- where the array had no DIM; the value is of the array's kind.
  pub array_get_2d-array_set_2d :
      (k : Bool) (slot : ℕ) (a : ArrayData h) (s : Store h) (c d : Cpu h) (v : Value h)
      → (row col : h.Double) (rest rest' : List (Value h)) → get_elem? s.arrays slot ≡ some a
      → ArrayOk k a
      → c.stack ≡ v ∷ number col ∷ number row ∷ rest
      → d.stack ≡ number col ∷ number row ∷ rest'
      → IsOfKind k v
      → h.to_size row < (auto_dim_2d k a).dim1
      → h.to_size col < (auto_dim_2d k a).dim2
      → Ensures
          (λ r. r.0 ≡ next (vm_push v (record d { stack = rest' })))
          (array_set_2d k slot s c >>= λ done. array_get_2d k slot done.1 d)
  unfolding written_store
  array_get_2d-array_set_2d k slot a s c d v row col rest rest' at ok st st' kind in_rows in_cols =
      let a' = auto_dim_2d k a in
      let i : ℕ = (h.to_size row * a'.dim2 + h.to_size col) % 2 ^ 64 in
      let ready : IsReady k a' = IsReady-auto_dim_2d k a ok in
      let cell : InCells k i a'.u =
        InCells-2d k a'.dim1 a'.dim2 (h.to_size row) (h.to_size col) a'.u ready.1 in_rows in_cols in
      let w = write_cell k i a'.u v cell kind in
      let bound : (ltb (h.to_size row) a'.dim1 && ltb (h.to_size col) a'.dim2) ≡ true =
        rw (lt→ltb _ _ in_rows) (lt→ltb _ _ in_cols) in
      rw (set_2d k slot a s c v row col rest at st kind bound w) (
        get_2d k slot (record a' { u = w.cells }) _ d v row col rest'
          (get_put slot (record a' { u = w.cells }) a' (set s.arrays slot a')
            (get_put slot a' a s.arrays at))
          st' (w.kept_2d a') bound w.loaded)
