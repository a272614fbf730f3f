-- ===== src/Vm/Safety/Cells.antt =====
-- Arrays: an access within the bounds of the program is one within the allocated cells.
use basset_lang.Prelude.{
  ℕ, ◌≡◌, refl, ◌<◌, ◌≤◌, ◌+◌, ◌*◌, ◌%◌, ◌^◌, Bool, true, false, length, length-replicate,
  length-set, get_elem?-some, arith, Ensures, store_at-some,
}
use basset_lang.Host.{Host}
use basset_lang.Program.{VarType}
use basset_lang.Vm.State.{Value, number, string, Cells, null, numbers, strings, ArrayData}
use basset_lang.Vm.Arrays.{fresh, load_cell, store_cell, dimension, auto_dim_1d, auto_dim_2d}
use basset_lang.Vm.Safety.Invariant.{ArrayOk, CellsOk}

-- A value is of the kind of the array.
abbrev pub IsOfKind : {h : Host} → Bool → Value h → Type 0
IsOfKind false (number d) = Unit
IsOfKind true (string s) = Unit
IsOfKind _ _ = ⊥

-- The cells are allocated, of the kind `k`, and cover the bounds.
abbrev pub Allocated : {h : Host} → Bool → ℕ → ℕ → Cells h → Type 0
Allocated k dim1 dim2 null = ⊥
Allocated k dim1 dim2 u = CellsOk k dim1 dim2 u

abbrev pub IsReady : {h : Host} → Bool → ArrayData h → Type 0
IsReady k a = (a.is_string ≡ k) × Allocated k a.dim1 a.dim2 a.u

module _ (h : Host) where
  pub IsReady-dimension :
      (type : VarType) (k : Bool) (d1 d2 cells : ℕ)
      → d1 ≤ cells
      → d1 * d2 ≤ cells
      → d1 * d2 < 2 ^ 64
      → IsReady k (dimension {h = h} type k d1 d2 cells)
  unfolding dimension fresh
  IsReady-dimension type true d1 d2 cells p q r =
      (refl, (rw length-replicate p, rw length-replicate q, r))
  IsReady-dimension type false d1 d2 cells p q r =
      (refl, (rw length-replicate p, rw length-replicate q, r))

-- What an array is before its first use, by its cells.
auto-IsReady :
    {h : Host} (k : Bool) (a fresh_array : ArrayData h) (u : Cells h)
    → a.u ≡ u
    → ArrayOk k a
    → IsReady k fresh_array
    → IsReady k (elim u as (λ _. ArrayData h) [ null ↦ fresh_array | _ ↦ a ])
auto-IsReady k a f null e ok r = r
auto-IsReady true a f (numbers xs) e ok r = absurd (rw e at ok.1)
auto-IsReady false a f (numbers xs) e ok r = (ok.0, rw e (rw e at ok.1))
auto-IsReady true a f (strings xs) e ok r = (ok.0, rw e (rw e at ok.1))
auto-IsReady false a f (strings xs) e ok r = absurd (rw e at ok.1)

module _ {h : Host} where
  pub IsReady-auto_dim_1d : (k : Bool) (a : ArrayData h) → ArrayOk k a → IsReady k (auto_dim_1d k a)
  unfolding auto_dim_1d
  IsReady-auto_dim_1d k a ok =
      auto-IsReady k a _ a.u refl ok (
        IsReady-dimension h VarType.var_array_1d k 11 0 11 (omega arith) (omega arith)
          (omega arith))

  pub IsReady-auto_dim_2d : (k : Bool) (a : ArrayData h) → ArrayOk k a → IsReady k (auto_dim_2d k a)
  unfolding auto_dim_2d
  IsReady-auto_dim_2d k a ok = auto-IsReady k a _ a.u refl ok (
      IsReady-dimension h VarType.var_array_2d k 11 11 121 (omega arith) (omega arith)
        (omega arith))

  pub ArrayOk-IsReady : (k : Bool) (a : ArrayData h) → IsReady k a → ArrayOk k a
  ArrayOk-IsReady k a (e, ready) = (e, weaken k a.dim1 a.dim2 a.u ready)
    where
      weaken : (k : Bool) (d1 d2 : ℕ) (u : Cells h) → Allocated k d1 d2 u → CellsOk k d1 d2 u
      weaken k d1 d2 null p = absurd p
      weaken k d1 d2 (numbers xs) p = p
      weaken k d1 d2 (strings xs) p = p

  -- `i` is the index of an allocated cell.
  abbrev pub InCells : Bool → ℕ → Cells h → Type 0
  InCells false i (numbers xs) = i < length xs
  InCells true i (strings xs) = i < length xs
  InCells _ i _ = ⊥

  pub Ensures-load_cell :
      (k : Bool) (u : Cells h) (i : ℕ) → InCells k i u → Ensures (λ _. Unit {0}) (load_cell k u i)
  unfolding load_cell
  Ensures-load_cell k null i p = ground arith
  Ensures-load_cell false (numbers xs) i p = let (d, e) = get_elem?-some xs i p in rw e tt
  Ensures-load_cell true (numbers xs) i p = absurd p
  Ensures-load_cell false (strings xs) i p = absurd p
  Ensures-load_cell true (strings xs) i p = let (d, e) = get_elem?-some xs i p in rw e tt

  -- A write keeps the cells.
  pub Ensures-store_cell :
      (k : Bool) (d1 d2 : ℕ) (u : Cells h) (i : ℕ) (v : Value h)
      → InCells k i u
      → IsOfKind k v
      → Allocated k d1 d2 u
      → Ensures (CellsOk k d1 d2) (store_cell u i v)
  unfolding store_cell
  Ensures-store_cell k d1 d2 null i v p q r = absurd r
  Ensures-store_cell false d1 d2 (numbers xs) i (number d) p q r =
      rw (store_at-some xs i d p) (rw (length-set xs i d) r)
  Ensures-store_cell false d1 d2 (numbers xs) i (string s) p q r = absurd q
  Ensures-store_cell true d1 d2 (numbers xs) i v p q r = absurd p
  Ensures-store_cell false d1 d2 (strings xs) i v p q r = absurd p
  Ensures-store_cell true d1 d2 (strings xs) i (number d) p q r = absurd q
  Ensures-store_cell true d1 d2 (strings xs) i (string s) p q r =
      rw (store_at-some xs i s p) (rw (length-set xs i s) r)

  pub InCells-1d :
      (k : Bool) (d1 d2 i : ℕ) (u : Cells h) → Allocated k d1 d2 u → i < d1 → InCells k i u
  InCells-1d k d1 d2 i null p q = absurd p
  InCells-1d false d1 d2 i (numbers xs) p q = omega arith
  InCells-1d true d1 d2 i (numbers xs) p q = absurd p
  InCells-1d false d1 d2 i (strings xs) p q = absurd p
  InCells-1d true d1 d2 i (strings xs) p q = omega arith

row_major : (d1 d2 r c : ℕ) → r < d1 → c < d2 → d1 * d2 < 2 ^ 64 → (r * d2 + c) % 2 ^ 64 < d1 * d2
row_major d1 d2 r c p q small = let inside : r * d2 + c < d1 * d2 = grind arith in omega arith

module _ {h : Host} where
  pub InCells-2d :
      (k : Bool) (d1 d2 r c : ℕ) (u : Cells h)
      → Allocated k d1 d2 u
      → r < d1
      → c < d2
      → InCells k ((r * d2 + c) % 2 ^ 64) u
  InCells-2d k d1 d2 r c null p q₁ q₂ = absurd p
  InCells-2d false d1 d2 r c (numbers xs) p q₁ q₂ = omega (arith, row_major d1 d2 r c q₁ q₂ p.2)
  InCells-2d true d1 d2 r c (numbers xs) p q₁ q₂ = absurd p
  InCells-2d false d1 d2 r c (strings xs) p q₁ q₂ = absurd p
  InCells-2d true d1 d2 r c (strings xs) p q₁ q₂ = omega (arith, row_major d1 d2 r c q₁ q₂ p.2)
