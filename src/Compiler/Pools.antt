-- ===== src/Compiler/Pools.antt =====
-- The pools and the symbol table of src/compiler.c: what is added is found, and what was there stays.
use basset_lang.Prelude.{
  ℕ, zero, suc, ◌+◌, ◌%◌, ◌^◌, ◌<◌, ◌≤◌, ◌≡◌, refl, ap, sym, ◌⊎◌, ◌∙◌, arith, Bool, true,
  Bool-cases, inl, inr, none, some, Option-cases, List, [], ◌∷◌, ◌++◌, length, length-append,
  get_elem?,
}
use basset_lang.Host.{Host, Str}
use Prim.Native.Nat.{Ordering}
use basset_lang.Vm.Arith.{strcmp, is_eq}
use basset_lang.Vm.Contract.Text.{strcmp-eq}
use basset_lang.Compiler.{
  CompilerState, first_index, same_text, compiler_add_string, compiler_add_const,
}

module _ {ℓ} {A : Type ℓ} where
  pub get_elem?-append_left :
      (xs ys : List A) (i : ℕ) (a : A) → get_elem? xs i ≡ some a → get_elem? (xs ++ ys) i ≡ some a
  get_elem?-append_left [] ys i a e = cc
  get_elem?-append_left (x ∷ xs) ys zero a e = e
  get_elem?-append_left (x ∷ xs) ys (suc i) a e = get_elem?-append_left xs ys i a e

  pub get_elem?-append_last :
      (xs : List A) (a : A) → get_elem? (xs ++ (a ∷ [])) (length xs) ≡ some a
  get_elem?-append_last [] a = refl
  get_elem?-append_last (x ∷ xs) a = get_elem?-append_last xs a

  -- The index that a search from `start` returns is that of an entry that passes the test.
  first_index_sound :
      (test : A → Bool) (xs : List A) (start i : ℕ)
      → first_index test xs start ≡ some i
      → (k : ℕ) × (a : A) × (i ≡ start + k)
        × (get_elem? xs k ≡ some a)
        × (test a ≡ true)
        × (k < length xs)
  unfolding first_index
  first_index_sound test [] start i e = cc
  first_index_sound test (x ∷ xs) start i e = elim (Bool-cases (test x)) [
    | inl pass ↦
        let same : start ≡ i =
          (let q : first_index test (x ∷ xs) start ≡ some start = rw pass refl in cc) in
        (0, x, omega arith, refl, pass, omega arith)
    | inr fail ↦
        let rest : first_index test xs (suc start) ≡ some i =
          (let q : first_index test (x ∷ xs) start ≡ first_index test xs (suc start) =
              rw fail refl in
            sym q ∙ e) in
        let (k, a, at_k, here, passed, inside) = first_index_sound test xs (suc start) i rest in
        (suc k, a, omega arith, here, passed, omega arith)
  ]

is_eq-eq : (o : Ordering) → is_eq o ≡ true → o ≡ Ordering.eq
is_eq-eq Ordering.lt e = cc
is_eq-eq Ordering.gt e = cc
is_eq-eq Ordering.eq e = refl

pub same_text-eq : (a b : Str) → same_text a b ≡ true → a ≡ b
same_text-eq a b e = (strcmp-eq a b).0 (is_eq-eq (strcmp a b) e)

in_16_bits : (i n : ℕ) → i ≤ n → n < 2 ^ 16 → i % 2 ^ 16 ≡ i
in_16_bits i n below small = omega arith

module _ {h : Host} where
  pub add_string_new :
      (str : Str) (cs : CompilerState h)
      → first_index (λ x. same_text x str) cs.program.string_pool 0 ≡ none
      → compiler_add_string str cs ≡ (
        length cs.program.string_pool % 2 ^ 16,
        record cs {
          program = record cs.program { string_pool = cs.program.string_pool ++ (str ∷ []) };
        },
      )
  unfolding compiler_add_string
  add_string_new str cs e = rw (compiler_add_string, e) refl

  pub add_string_known :
      (str : Str) (cs : CompilerState h) (j : ℕ)
      → first_index (λ x. same_text x str) cs.program.string_pool 0 ≡ some j
      → compiler_add_string str cs ≡ (j % 2 ^ 16, cs)
  unfolding compiler_add_string
  add_string_known str cs j e = rw (compiler_add_string, e) refl

  pub add_const_new :
      (value : h.Double) (cs : CompilerState h)
      → first_index (λ x. h.eq x value) cs.program.const_pool 0 ≡ none
      → compiler_add_const value cs ≡ (
        length cs.program.const_pool % 2 ^ 16,
        record cs {
          program = record cs.program { const_pool = cs.program.const_pool ++ (value ∷ []) };
        },
      )
  unfolding compiler_add_const
  add_const_new value cs e = rw (compiler_add_const, e) refl

  pub add_const_known :
      (value : h.Double) (cs : CompilerState h) (j : ℕ)
      → first_index (λ x. h.eq x value) cs.program.const_pool 0 ≡ some j
      → compiler_add_const value cs ≡ (j % 2 ^ 16, cs)
  unfolding compiler_add_const
  add_const_known value cs j e = rw (compiler_add_const, e) refl

  -- A string that is added to a pool of fewer than 65536 strings is at the index returned, and every
  -- string that the pool had stays where it was.
  pub compiler_add_string-get_elem? :
      (str old : Str) (i : ℕ) (cs : CompilerState h)
      → length cs.program.string_pool < 2 ^ 16
      → get_elem? cs.program.string_pool i ≡ some old
      → (get_elem? (compiler_add_string str cs).1.program.string_pool (compiler_add_string str cs).0
          ≡ some str)
        × (get_elem? (compiler_add_string str cs).1.program.string_pool i ≡ some old)
  compiler_add_string-get_elem? str old i cs room at_i =
      let pool = cs.program.string_pool in
      let whole = in_16_bits (length pool) (length pool) (omega arith) room in
      elim (Option-cases (first_index (λ x. same_text x str) pool 0)) [
        | inl e ↦ rw (add_string_new str cs e) (
          rw whole (get_elem?-append_last pool str),
          get_elem?-append_left pool (str ∷ []) i old at_i,
        )
        | inr (j, e) ↦
            let (k, a, at_k, here, passed, inside) = first_index_sound _ pool 0 j e in
            let whole_j : j % 2 ^ 16 ≡ k = omega arith in
            rw (add_string_known str cs j e)
              (rw whole_j (here ∙ ap (λ x. some x) (same_text-eq a str passed)), at_i)
      ]

  -- A constant of the pool stays where it is.
  pub kept_const :
      (value old : h.Double) (i : ℕ) (cs : CompilerState h)
      → get_elem? cs.program.const_pool i ≡ some old
      → get_elem? (compiler_add_const value cs).1.program.const_pool i ≡ some old
  kept_const value old i cs at_i =
      elim (Option-cases (first_index (λ x. h.eq x value) cs.program.const_pool 0)) [
        | inl e ↦
            rw (add_const_new value cs e)
              (get_elem?-append_left cs.program.const_pool (value ∷ []) i old at_i)
        | inr (j, e) ↦ rw (add_const_known value cs j e) at_i
      ]

  -- The constant at the index returned.
  pub added_const :
      (value : h.Double) (cs : CompilerState h)
      → length cs.program.const_pool < 2 ^ 16
      → (found : h.Double) × (get_elem?
            (compiler_add_const value cs).1.program.const_pool
            (compiler_add_const value cs).0
          ≡ some found)
        × ((found ≡ value) ⊎ (h.eq found value ≡ true))
  added_const value cs room =
      let pool = cs.program.const_pool in
      let whole = in_16_bits (length pool) (length pool) (omega arith) room in
      elim (Option-cases (first_index (λ x. h.eq x value) pool 0)) [
        | inl e ↦
            rw (add_const_new value cs e)
              (value, rw whole (get_elem?-append_last pool value), inl refl)
        | inr (j, e) ↦
            let (k, a, at_k, here, passed, inside) = first_index_sound _ pool 0 j e in
            let whole_j : j % 2 ^ 16 ≡ k = omega arith in
            rw (add_const_known value cs j e) (a, rw whole_j here, inr passed)
      ]

  -- Only the pool changes, and it does not become shorter.
  pub const_only :
      (value : h.Double) (cs : CompilerState h)
      → ((compiler_add_const value cs).1.program.code ≡ cs.program.code)
        × ((compiler_add_const value cs).1.program.var_table ≡ cs.program.var_table)
        × (length cs.program.const_pool ≤ length (compiler_add_const value cs).1.program.const_pool)
  const_only value cs =
      elim (Option-cases (first_index (λ x. h.eq x value) cs.program.const_pool 0)) [
        | inl e ↦
            rw (add_const_new value cs e)
              (refl, refl, omega (arith, length-append cs.program.const_pool (value ∷ [])))
        | inr (j, e) ↦ rw (add_const_known value cs j e) (refl, refl, omega arith)
      ]

  -- A constant that is added to a pool of fewer than 65536 constants is at the index returned, or a
  -- constant that `==` finds equal to it is, and every constant that the pool had stays where it was.
  pub compiler_add_const-get_elem? :
      (value old : h.Double) (i : ℕ) (cs : CompilerState h)
      → length cs.program.const_pool < 2 ^ 16
      → get_elem? cs.program.const_pool i ≡ some old
      → ((found : h.Double) × (get_elem?
              (compiler_add_const value cs).1.program.const_pool
              (compiler_add_const value cs).0
            ≡ some found)
          × ((found ≡ value) ⊎ (h.eq found value ≡ true)))
        × (get_elem? (compiler_add_const value cs).1.program.const_pool i ≡ some old)
  compiler_add_const-get_elem? value old i cs room at_i =
      (added_const value cs room, kept_const value old i cs at_i)
