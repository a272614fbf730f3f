-- ===== src/Prelude/Outcomes.antt =====
-- Total correctness of code that may be undefined: it has a result, and the result satisfies `P`.
use Prim.Native.Nat.{ℕ, ◌<◌}
use mathlib.Core.Path.{◌≡◌, refl}
use mathlib.Core.Bool.{Bool, true, false}
use mathlib.Core.Option.{Option, none, some}
use mathlib.Core.List.{List}
use native.Mathlib.Omega.{arith}
use basset_lang.Prelude.Tests.{◌>>=◌, if◌then◌else◌}
use basset_lang.Prelude.Lists.{length, get_elem?, get_elem?-some, set, store_at}

abbrev pub Ensures {ℓ} : {A : Type ℓ} → (A → Type 0) → Option A → Type 0
Ensures P none = ⊥
Ensures P (some a) = P a

module _ {ℓ κ} {A : Type ℓ} {B : Type κ} where
  pub Ensures-bind :
      (P : A → Type 0) (Q : B → Type 0) (m : Option A) (f : A → Option B)
      → Ensures P m
      → ((a : A) → P a → Ensures Q (f a))
      → Ensures Q (m >>= f)
  Ensures-bind P Q none f h k = absurd h
  Ensures-bind P Q (some a) f h k = k a h

module _ {ℓ} {A : Type ℓ} where
  pub Ensures-if :
      (P : A → Type 0) (b : Bool) (x y : Option A)
      → (b ≡ true → Ensures P x)
      → (b ≡ false → Ensures P y)
      → Ensures P (if b then x else y)
  Ensures-if P true x y p q = p refl
  Ensures-if P false x y p q = q refl

  -- A read in bounds, and a write in bounds.
  pub Ensures-get :
      (P : A → Type 0) (xs : List A) (i : ℕ)
      → i < length xs
      → ((a : A) → get_elem? xs i ≡ some a → P a)
      → Ensures P (get_elem? xs i)
  Ensures-get P xs i h k = let (a, e) = get_elem?-some xs i h in rw e (k a e)

  pub store_at-some :
      (xs : List A) (i : ℕ) (v : A) → i < length xs → store_at xs i v ≡ some (set xs i v)
  store_at-some xs i v h = ground arith

  pub Ensures-store_at :
      (P : List A → Type 0) (xs : List A) (i : ℕ) (v : A)
      → i < length xs
      → P (set xs i v)
      → Ensures P (store_at xs i v)
  Ensures-store_at P xs i v h p = rw (store_at-some xs i v h) p

  -- What holds of a result that exists.
  pub Ensures-value : (P : A → Type 0) (m : Option A) → Ensures P m → (a : A) × (m ≡ some a) × P a
  Ensures-value P none h = absurd h
  Ensures-value P (some a) h = (a, refl, h)
