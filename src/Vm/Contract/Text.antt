-- ===== src/Vm/Contract/Text.antt =====
-- The string functions of src/vm.c against each other.
use Prim.Native.Nat.{compare, Ordering}
use basset_lang.Prelude.{
  ℕ, ◌+◌, ◌-◌, ◌^◌, ◌<◌, ◌≤◌, ◌≡◌, ◌↔◌, refl, ap, ◌∙◌, sym, pos, int32, ◌+ℤ◌, ◌-ℤ◌, false, leb,
  leb→le, Bool-cases, inl, inr, some, [], ◌∷◌, ◌++◌, length, take, drop, take-drop, take_all,
  length-drop, arith,
}
use basset_lang.Host.{Str}
use basset_lang.Vm.Arith.{strcmp}
use basset_lang.Vm.Strings.{left_string, right_string, mid_string, mid_rest_string, mid_length}

left_string-some : (s : Str) (n : ℕ) → n + 1 < 2 ^ 31 → left_string s (pos n) ≡ some (take n s)
unfolding left_string ◌+ℤ◌
left_string-some s n small = ground arith

right_string-drop :
    (s : Str) (n : ℕ) → n ≤ length s → right_string s (pos (length s - n)) ≡ drop n s
unfolding right_string
right_string-drop s n inside = ground arith

-- LEFT$ with a length in the string, and RIGHT$ with the length that is left, split the string:
-- joined they give it back. The length must be below the largest `int`.
pub left_string-right_string :
    (s : Str) (n : ℕ)
    → n ≤ length s
    → n + 1 < 2 ^ 31
    → (left : Str) × (left_string s (pos n) ≡ some left)
      × (left ++ right_string s (pos (length s - n)) ≡ s)
left_string-right_string s n inside small =
    (take n s, left_string-some s n small, rw (right_string-drop s n inside) (take-drop n s))

from_one : (first : ℕ) → first < 2 ^ 31 → int32 (pos (first + 1) -ℤ pos 1) ≡ some (pos first)
unfolding ◌-ℤ◌
from_one first small = ground arith

length_kept :
    (s : Str) (first n : ℕ) → n ≤ length s - first → mid_length (pos n) (length s - first) ≡ n
length_kept s first n inside = ground arith

-- MID$ that starts after `first` characters, with a length in what is left.
mid_from :
    (s : Str) (first n : ℕ)
    → first < 2 ^ 31
    → n ≤ length s - first
    → mid_string s (pos (first + 1)) (pos n) ≡ some (take n (drop first s))
unfolding mid_string ◌-ℤ◌
mid_from s first n small inside = elim (Bool-cases (leb (length s) first)) [
  | inl past ↦
      rw (from_one first small)
        (rw past (let empty : n ≡ 0 = omega (arith, leb→le _ _ past) in rw empty refl))
  | inr within ↦
      rw (from_one first small)
        (rw within (ap (λ k. some (take k (drop first s))) (length_kept s first n inside)))
]

-- MID$ from the first character with a length in the string is LEFT$ with that length.
pub mid_string-left_string :
    (s : Str) (n : ℕ)
    → n ≤ length s
    → n + 1 < 2 ^ 31
    → mid_string s (pos 1) (pos n) ≡ left_string s (pos n)
mid_string-left_string s n inside small =
    rw (left_string-some s n small) (mid_from s 0 n (omega arith) (omega arith))

lt→leb_false : (a b : ℕ) → b < a → leb a b ≡ false
lt→leb_false a b h = ground arith

-- MID$ without a length is RIGHT$ with the length from the start to the end, for a start in the
-- string, which counts from 1.
pub mid_rest_string-right_string :
    (s : Str) (start : ℕ)
    → start < length s
    → start < 2 ^ 31 - 1
    → mid_rest_string s (pos (start + 1)) ≡ some (right_string s (pos (length s - start)))
unfolding mid_rest_string
mid_rest_string-right_string s start inside small =
    let within : leb (length s) start ≡ false = lt→leb_false _ _ inside in
    let all_of : take (length s - start) (drop start s) ≡ drop start s =
      take_all _ _ (omega (arith, length-drop start s)) in
    rw (right_string-drop s start (omega arith))
      (rw (from_one start (omega arith)) (rw within (rw all_of refl)))

compare_refl : (a : ℕ) → compare a a ≡ Ordering.eq
compare_refl a = ground arith

compare_eq : (a b : ℕ) → compare a b ≡ Ordering.eq → a ≡ b
compare_eq a b e = ground arith

strcmp_refl : (s : Str) → strcmp s s ≡ Ordering.eq
unfolding strcmp
strcmp_refl [] = refl
strcmp_refl (a ∷ s) = rw (strcmp, compare_refl a) (strcmp_refl s)

same_cons :
    (a b : ℕ) (s t : Str) (o : Ordering)
    → compare a b ≡ o
    → elim o [ Ordering.lt ↦ Ordering.lt | Ordering.eq ↦ strcmp s t | Ordering.gt ↦ Ordering.gt ]
      ≡ Ordering.eq
    → (strcmp s t ≡ Ordering.eq → s ≡ t)
    → a ∷ s ≡ b ∷ t
same_cons a b s t Ordering.lt c e rest = cc
same_cons a b s t Ordering.gt c e rest = cc
same_cons a b s t Ordering.eq c e rest =
    let p : a ≡ b = compare_eq a b c in let q : s ≡ t = rest e in cc

strcmp_same : (s t : Str) → strcmp s t ≡ Ordering.eq → s ≡ t
unfolding strcmp
strcmp_same [] [] e = refl
strcmp_same [] (b ∷ t) e = cc
strcmp_same (a ∷ s) [] e = cc
strcmp_same (a ∷ s) (b ∷ t) e = same_cons a b s t (compare a b) refl e (strcmp_same s t)

pub strcmp-eq : (s t : Str) → (strcmp s t ≡ Ordering.eq) ↔ (s ≡ t)
strcmp-eq s t = (strcmp_same s t, λ e. ap (strcmp s) (sym e) ∙ strcmp_refl s)
