-- ===== src/BytecodeFile/Readers.antt =====
-- What the writers of src/bytecode_file.c put into a file, the readers take from it.
use native.Mathlib.Numerals.{unary_clauses}
use basset_lang.Prelude.{
  ℕ, zero, suc, ◌+◌, ◌*◌, ◌/◌, ◌%◌, ◌^◌, ◌<◌, ◌≡◌, refl, ap, arith, List, [], ◌∷◌, ◌++◌, length,
  take, take_all, All,
}
use basset_lang.Host.{Str}
use basset_lang.BytecodeFile.{
  Result, done, put, get, get_bytes, write_count, read_count, write_string, until_nul, read_string,
  write_all, read_all, or_dangling, read_owned, write_section, read_section, read_owned_section,
}
use basset_lang.BytecodeFile.Sections.{}

quotient_below : (n w : ℕ) → n < 256 ^ suc w → n / 256 < 256 ^ w
quotient_below n w h = let p : 256 ^ suc w ≡ 256 ^ w * 256 = simp unary_clauses in omega arith

pub get-put : (w n : ℕ) (rest : List ℕ) → n < 256 ^ w → get w (put w n rest) ≡ done n rest
unfolding get put
get-put zero n rest h = let e : 0 ≡ n = omega arith in ap (λ k. done k rest) e
get-put (suc w) n rest h =
    let whole : n % 256 + 256 * (n / 256) ≡ n = omega arith in
    rw (get-put w (n / 256) rest (quotient_below n w h)) (ap (λ k. done k rest) whole)

pub get_bytes-append : (bs rest : List ℕ) → get_bytes (length bs) (bs ++ rest) ≡ done bs rest
unfolding get_bytes
get_bytes-append [] rest = refl
get_bytes-append (b ∷ bs) rest = rw (get_bytes-append bs rest) refl

-- A string whose length has 32 bits, with no NUL.
abbrev pub IsText : Str → Type 0
IsText str = (length str < 2 ^ 32) × All (λ b. 0 < b) str

until_nul-All : (str : Str) → All (λ b. 0 < b) str → until_nul str ≡ str
unfolding until_nul
until_nul-All [] h = refl
until_nul-All (zero ∷ str) (h, hs) = absurd (omega arith)
until_nul-All (suc b ∷ str) (h, hs) = ap (λ s. suc b ∷ s) (until_nul-All str hs)

pub read_string-write_string :
    (str : Str) (rest : List ℕ) → IsText str → read_string (write_string str rest) ≡ done str rest
unfolding read_string write_string
read_string-write_string str rest (short, nonzero) =
    let len : length str % 2 ^ 32 ≡ length str = omega arith in
    let whole : take (length str) str ≡ str = take_all (length str) str (omega arith) in
    rw
      (
        len,
        get-put 4 (length str) (take (length str) str ++ rest) short,
        whole,
        get_bytes-append str rest,
        until_nul-All str nonzero,
      )
      refl

module _ {ℓ} {A : Type ℓ} where
  read_all-write_all :
      (write : A → List ℕ → List ℕ) (read : List ℕ → Result A) (P : A → Type 0)
      → ((a : A) (rest : List ℕ) → P a → read (write a rest) ≡ done a rest)
      → (xs : List A) (rest : List ℕ) → All P xs
      → read_all read (length xs) (write_all write xs rest) ≡ done xs rest
  unfolding read_all write_all
  read_all-write_all write read P one [] rest h = refl
  read_all-write_all write read P one (x ∷ xs) rest (p, ps) =
      rw (one x (write_all write xs rest) p, read_all-write_all write read P one xs rest ps) refl

  read_owned-write_all :
      (write : A → List ℕ → List ℕ) (read : List ℕ → Result A) (P : A → Type 0)
      → ((a : A) (rest : List ℕ) → P a → read (write a rest) ≡ done a rest)
      → (xs : List A) (rest : List ℕ) → All P xs
      → read_owned read (length xs) (write_all write xs rest) ≡ done xs rest
  unfolding read_owned write_all or_dangling
  read_owned-write_all write read P one [] rest h = refl
  read_owned-write_all write read P one (x ∷ xs) rest (p, ps) =
      rw (one x (write_all write xs rest) p, read_owned-write_all write read P one xs rest ps) refl

  pub read_section-write_section :
      (write : A → List ℕ → List ℕ) (read : List ℕ → Result A) (P : A → Type 0)
      → ((a : A) (rest : List ℕ) → P a → read (write a rest) ≡ done a rest)
      → (xs : List A) (rest : List ℕ) → length xs < 2 ^ 32
      → All P xs
      → read_section read (write_section write xs rest) ≡ done xs rest
  unfolding read_section write_section read_count write_count
  read_section-write_section write read P one xs rest short h =
      let len : length xs % 2 ^ 32 ≡ length xs = omega arith in
      rw
        (
          len,
          get-put 4 (length xs) (write_all write xs rest) short,
          read_all-write_all write read P one xs rest h,
        )
        refl

  pub read_owned_section-write_section :
      (write : A → List ℕ → List ℕ) (read : List ℕ → Result A) (P : A → Type 0)
      → ((a : A) (rest : List ℕ) → P a → read (write a rest) ≡ done a rest)
      → (xs : List A) (rest : List ℕ) → length xs < 2 ^ 32
      → All P xs
      → read_owned_section read (write_section write xs rest) ≡ done xs rest
  unfolding read_owned_section write_section read_count write_count
  read_owned_section-write_section write read P one xs rest short h =
      let len : length xs % 2 ^ 32 ≡ length xs = omega arith in
      rw
        (
          len,
          get-put 4 (length xs) (write_all write xs rest) short,
          read_owned-write_all write read P one xs rest h,
        )
        refl
