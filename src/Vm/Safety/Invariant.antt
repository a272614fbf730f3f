-- ===== src/Vm/Safety/Invariant.antt =====
-- The invariant of the machine.
use mathlib.Core.Path.{subst}
use basset_lang.Prelude.{
  ℕ, zero, suc, ◌*◌, ◌^◌, ◌≡◌, refl, arith, ◌≤◌, ◌<◌, Bool, true, false, some, List, [], ◌∷◌,
  length, get_elem?, set,
}
use basset_lang.Host.{Host}
use basset_lang.Vm.State.{ForLoopState, Cpu, Cells, null, numbers, strings, ArrayData, Store, Vm}

module _ {h : Host} where
  -- The variables of the active loops are slots.
  abbrev pub LoopsInRange : ℕ → List (ForLoopState h) → Type 0
  LoopsInRange n [] = Unit
  LoopsInRange n (loop ∷ rest) = (loop.var_slot < n) × LoopsInRange n rest

  -- The stacks lie within what is allocated for them.
  pub record CpuOk (n : ℕ) (c : Cpu h) : Type 0 where
    pub stack_room : 0 < c.stack_capacity
    pub stack_fits : length c.stack ≤ c.stack_capacity
    pub call_room : 0 < c.call_capacity
    pub call_fits : length c.call_stack ≤ c.call_capacity
    pub for_room : 0 < c.for_capacity
    pub for_fits : length c.for_stack ≤ c.for_capacity
    pub loops : LoopsInRange n c.for_stack

  -- The cells that an array has allocated are those that its bounds admit, and of its kind.
  abbrev pub CellsOk : Bool → ℕ → ℕ → Cells h → Type 0
  CellsOk k dim1 dim2 null = Unit
  CellsOk false dim1 dim2 (numbers xs) =
      (dim1 ≤ length xs) × (dim1 * dim2 ≤ length xs) × (dim1 * dim2 < 2 ^ 64)
  CellsOk true dim1 dim2 (strings xs) =
      (dim1 ≤ length xs) × (dim1 * dim2 ≤ length xs) × (dim1 * dim2 < 2 ^ 64)
  CellsOk _ dim1 dim2 _ = ⊥

  abbrev pub ArrayOk : Bool → ArrayData h → Type 0
  ArrayOk k a = (a.is_string ≡ k) × CellsOk k a.dim1 a.dim2 a.u

  abbrev pub ArraysOk : List Bool → List (ArrayData h) → Type 0
  ArraysOk [] [] = Unit
  ArraysOk (k ∷ ks) (a ∷ arrays) = ArrayOk k a × ArraysOk ks arrays
  ArraysOk _ _ = ⊥

  -- Every slot has its variables, and an array of the kind that its name gives.
  pub record StoreOk (ks : List Bool) (s : Store h) : Type 0 where
    pub numbers_fit : length s.num_vars ≡ length ks
    pub strings_fit : length s.str_vars ≡ length ks
    pub arrays_ok : ArraysOk ks s.arrays

  pub record IsWf (ks : List Bool) (vm : Vm h) : Type 0 where
    pub cpu_ok : CpuOk (length ks) vm.cpu
    pub store_ok : StoreOk ks vm.store
    pub channels_ok : length vm.channels ≡ 8

  pub get-ArraysOk :
      (ks : List Bool) (arrays : List (ArrayData h)) (i : ℕ) (k : Bool)
      → ArraysOk ks arrays
      → get_elem? ks i ≡ some k
      → (a : ArrayData h) × (get_elem? arrays i ≡ some a) × ArrayOk k a
  get-ArraysOk [] arrays i k ok e = cc
  get-ArraysOk (x ∷ ks) [] i k ok e = absurd ok
  get-ArraysOk (x ∷ ks) (a ∷ arrays) zero k ok e =
      let p : x ≡ k = cc in (a, refl, subst (λ j. ArrayOk j a) p ok.0)
  get-ArraysOk (x ∷ ks) (a ∷ arrays) (suc i) k ok e = get-ArraysOk ks arrays i k ok.1 e

  pub set-ArraysOk :
      (ks : List Bool) (arrays : List (ArrayData h)) (i : ℕ) (k : Bool) (a : ArrayData h)
      → ArraysOk ks arrays
      → get_elem? ks i ≡ some k
      → ArrayOk k a
      → ArraysOk ks (set arrays i a)
  set-ArraysOk [] arrays i k a ok e new = cc
  set-ArraysOk (x ∷ ks) [] i k a ok e new = absurd ok
  set-ArraysOk (x ∷ ks) (b ∷ arrays) zero k a ok e new =
      let p : k ≡ x = cc in (subst (λ j. ArrayOk j a) p new, ok.1)
  set-ArraysOk (x ∷ ks) (b ∷ arrays) (suc i) k a ok e new =
      (ok.0, set-ArraysOk ks arrays i k a ok.1 e new)

  pub length-ArraysOk :
      (ks : List Bool) (arrays : List (ArrayData h))
      → ArraysOk ks arrays
      → length arrays ≡ length ks
  length-ArraysOk [] [] ok = refl
  length-ArraysOk [] (a ∷ arrays) ok = absurd ok
  length-ArraysOk (k ∷ ks) [] ok = absurd ok
  length-ArraysOk (k ∷ ks) (a ∷ arrays) ok = omega (arith, length-ArraysOk ks arrays ok.1)
