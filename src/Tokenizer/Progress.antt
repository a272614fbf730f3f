-- ===== src/Tokenizer/Progress.antt =====
-- The scanner of src/tokenizer.c makes progress, so repeated reads reach the end of the input.
use basset_lang.Prelude.{
  ℕ, zero, suc, ◌+◌, ◌-◌, ◌<◌, ◌≤◌, ◌≡◌, refl, arith, ◌⊎◌, inl, inr, Bool, true, false, ◌&&◌, ltb,
  ltb→lt, ◌==◌, Option, none, some, List, [], ◌∷◌, length, length-drop, drop, drop_all,
  if◌then◌else◌,
}
use basset_lang.Host.{Host, Str}
use basset_lang.Tokens
use basset_lang.KeywordHash.{KeywordEntry}
use basset_lang.Tokenizer.{
  Scanner, Lexeme, Strtod, skip_chars, blanks, skip_whitespace, starts_with, starts_number,
  single_tokens, single_token, is_ident_cont, isalpha, ident_size, keyword_from, max_try,
  best_keyword, plain, apostrophe, string_literal, number_literal, keyword, identifier, word,
  word_or_unknown, punctuation, read_lexeme, behind, read_token,
}

-- `strtod` takes a character at least of a text that starts with a digit, or with a point and a digit.
abbrev pub TakesNumbers : (h : Host) → Strtod h → Type 0
TakesNumbers h strtod = (text : Str) → starts_number text ≡ true → 1 ≤ (strtod text).1

letter_continues : (c : ℕ) → isalpha c ≡ true → is_ident_cont c ≡ true
letter_continues c e = rw e refl

ident_size_pos :
    (table : List (List KeywordEntry)) (c : ℕ) (text : Str)
    → isalpha c ≡ true
    → 1 ≤ ident_size table (c ∷ text)
unfolding ident_size
ident_size_pos table c text e = rw (letter_continues c e) (go (keyword_from table text 16 1 text))
  where
    go : (b : Bool) → 1 ≤ (if b then 1 else suc (ident_size table text))
    go true = omega arith
    go false = omega arith

-- A token has a character at least.
abbrev Takes : (h : Host) → Lexeme h → Type 0
Takes h lexeme = 1 ≤ lexeme.size

module _ (h : Host) where
  Takes-if : (b : Bool) (x y : Lexeme h) → Takes h x → Takes h y → Takes h (if b then x else y)
  Takes-if true x y p q = p
  Takes-if false x y p q = q

  Takes-if_known :
      (b : Bool) (x y : Lexeme h)
      → (b ≡ true → Takes h x)
      → Takes h y
      → Takes h (if b then x else y)
  Takes-if_known true x y p q = p refl
  Takes-if_known false x y p q = q

  apostrophe-Takes : (text : Str) → Takes h (apostrophe text)
  unfolding apostrophe
  apostrophe-Takes text = omega arith

  string_literal-Takes : (text : Str) → Takes h (string_literal text)
  unfolding string_literal
  string_literal-Takes text = omega arith

  identifier-Takes :
      (table : List (List KeywordEntry)) (c : ℕ) (text : Str)
      → isalpha c ≡ true
      → Takes h (identifier table (c ∷ text))
  unfolding identifier
  identifier-Takes table c text e = let p = ident_size_pos table c text e in omega arith

  keyword-Takes : (token len : ℕ) (text : Str) → 0 < len → Takes h (keyword token len text)
  unfolding keyword
  keyword-Takes token len text p = omega arith

  word-Takes :
      (table : List (List KeywordEntry)) (c : ℕ) (text : Str)
      → isalpha c ≡ true
      → Takes h (word table (c ∷ text))
  unfolding word
  word-Takes table c text e =
      let best = best_keyword table (c ∷ text) (max_try 16 0 (c ∷ text) - 1) 1 (0, 0) in
      Takes-if_known (ltb 0 best.0) (keyword best.1 best.0 (c ∷ text)) (identifier table (c ∷ text))
        (λ e'. keyword-Takes best.1 best.0 (c ∷ text) (ltb→lt 0 best.0 e'))
        (identifier-Takes table c text e)

  word_or_unknown-Takes :
      (table : List (List KeywordEntry)) (c : ℕ) (text : Str)
      → Takes h (word_or_unknown table c (c ∷ text))
  unfolding word_or_unknown
  word_or_unknown-Takes table c text =
      Takes-if_known (isalpha c) (word table (c ∷ text)) (plain Tokens.tok_eof 1)
        (word-Takes table c text) (omega arith)

  punctuation-Takes :
      (table : List (List KeywordEntry)) (c : ℕ) (rest : Str) → Takes h (punctuation table c rest)
  unfolding punctuation
  punctuation-Takes table c rest =
      let single : Lexeme h = elim (single_token single_tokens c) as (λ _. Lexeme h) [
        | none ↦ word_or_unknown table c (c ∷ rest)
        | some token ↦ plain token 1
      ] in
      let ge : Lexeme h =
        if c == 62 && starts_with 61 rest then plain Tokens.tok_cge 2 else single in
      let ne : Lexeme h = if c == 60 && starts_with 62 rest then plain Tokens.tok_cne 2 else ge in
      Takes-if (c == 60 && starts_with 61 rest) (plain Tokens.tok_cle 2) ne (omega arith) (
        Takes-if (c == 60 && starts_with 62 rest) (plain Tokens.tok_cne 2) ge (omega arith) (
          Takes-if (c == 62 && starts_with 61 rest) (plain Tokens.tok_cge 2) single (omega arith)
            (go (single_token single_tokens c))))
    where
      go :
          (found : Option ℕ)
          → Takes h (elim found as (λ _. Lexeme h) [
            | none ↦ word_or_unknown table c (c ∷ rest)
            | some token ↦ plain token 1
          ])
      go none = word_or_unknown-Takes table c rest
      go (some token) = omega arith

  number_literal-Takes :
      (strtod : Strtod h) (text : Str)
      → TakesNumbers h strtod
      → starts_number text ≡ true
      → Takes h (number_literal strtod text)
  unfolding number_literal
  number_literal-Takes strtod text numbers e = numbers text e

  read_lexeme-Takes :
      (strtod : Strtod h) (table : List (List KeywordEntry)) (c : ℕ) (rest : Str)
      → TakesNumbers h strtod
      → Takes h (read_lexeme strtod table (c ∷ rest))
  unfolding read_lexeme
  read_lexeme-Takes strtod table c rest numbers =
      let number : Lexeme h =
        if starts_number (c ∷ rest)
        then number_literal strtod (c ∷ rest)
        else punctuation table c rest in
      let quote : Lexeme h = if c == 34 then string_literal rest else number in
      let comment : Lexeme h = if c == 39 then apostrophe rest else quote in
      Takes-if (c == 10) (plain Tokens.tok_ccr 1) comment (omega arith) (
        Takes-if (c == 39) (apostrophe rest) quote (apostrophe-Takes rest) (
          Takes-if (c == 34) (string_literal rest) number (string_literal-Takes rest) (
            Takes-if_known (starts_number (c ∷ rest)) (number_literal strtod (c ∷ rest))
              (punctuation table c rest) (number_literal-Takes strtod (c ∷ rest) numbers)
              (punctuation-Takes table c rest))))

  input-behind :
      (lexeme : Lexeme h) (s : Scanner) → (behind lexeme s).input ≡ drop lexeme.size s.input
  unfolding behind skip_chars
  input-behind lexeme s = go (starts_with 10 s.input)
    where
      go :
          (b : Bool)
          → (if b
              then record (skip_chars lexeme.size s) { column = 0; line_num = s.line_num + 1 }
              else skip_chars lexeme.size s).input
            ≡ drop lexeme.size s.input
      go true = refl
      go false = refl

-- The token is the end and nothing of the input is left, or less of the input is left than there was.
abbrev Proceeds : ℕ → Str → Str → Type 0
Proceeds type before after = (type ≡ Tokens.tok_eof × after ≡ []) ⊎ length after < length before

Proceeds-longer :
    (type : ℕ) (longer before after : Str)
    → length before ≤ length longer
    → Proceeds type before after
    → Proceeds type longer after
Proceeds-longer type longer before after l (inl p) = inl p
Proceeds-longer type longer before after l (inr p) = inr (omega arith)

length-skip_whitespace : (s : Scanner) → length (skip_whitespace s).input ≤ length s.input
unfolding skip_whitespace skip_chars
length-skip_whitespace s = omega (arith, length-drop (blanks s.input) s.input)

module _ (h : Host) (strtod : Strtod h) (table : List (List KeywordEntry)) where
  read_lexeme-Proceeds :
      (input : Str)
      → TakesNumbers h strtod
      → Proceeds
          (read_lexeme {h = h} strtod table input).type
          input
          (drop (read_lexeme {h = h} strtod table input).size input)
  unfolding read_lexeme
  read_lexeme-Proceeds [] numbers = inl (refl, refl)
  read_lexeme-Proceeds (c ∷ rest) numbers =
      let lexeme = read_lexeme {h = h} strtod table (c ∷ rest) in
      let takes = read_lexeme-Takes h strtod table c rest numbers in inr (smaller lexeme.size takes)
    where
      smaller : (n : ℕ) → 1 ≤ n → length (drop n (c ∷ rest)) < length (c ∷ rest)
      smaller n l = omega (arith, length-drop n (c ∷ rest))

  -- When `strtod` takes a character at least of each text that starts like a number, a read gives the end of
  -- the input and leaves nothing, or it leaves less of the input than there was.
  pub read_token-Proceeds :
      (s : Scanner)
      → TakesNumbers h strtod
      → ((read_token {h = h} strtod table s).0.type ≡ Tokens.tok_eof
          × (read_token {h = h} strtod table s).1.input ≡ [])
        ⊎ length (read_token {h = h} strtod table s).1.input < length s.input
  unfolding read_token
  read_token-Proceeds s₀ numbers =
      let s = skip_whitespace s₀ in
      let lexeme = read_lexeme {h = h} strtod table s.input in
      rw (input-behind h lexeme s) (
        Proceeds-longer lexeme.type s₀.input s.input (drop lexeme.size s.input)
          (length-skip_whitespace s₀) (read_lexeme-Proceeds s.input numbers))

  -- The scanner after `n` reads.
  unfoldable pub scanner_after : ℕ → Scanner → Scanner
  scanner_after zero s = s
  scanner_after (suc n) s = scanner_after n (read_token {h = h} strtod table s).1

  read_token_at_end :
      (s : Scanner) → s.input ≡ [] → (read_token {h = h} strtod table s).0.type ≡ Tokens.tok_eof
  unfolding read_token skip_whitespace skip_chars blanks read_lexeme
  read_token_at_end s e = rw e refl

  input-scanner_after :
      (n : ℕ) (s : Scanner)
      → TakesNumbers h strtod
      → length s.input ≤ n
      → (scanner_after n s).input ≡ []
  unfolding scanner_after
  input-scanner_after zero s numbers l = drop_all 0 s.input l
  input-scanner_after (suc n) s numbers l =
      input-scanner_after n (read_token {h = h} strtod table s).1 numbers
        (less (read_token {h = h} strtod table s).1.input (read_token-Proceeds s numbers))
    where
      less :
          {P : Type 0} (after : Str)
          → (P × after ≡ []) ⊎ length after < length s.input
          → length after ≤ n
      less after (inl (p, e)) = rw e (omega arith)
      less after (inr p) = omega arith

  -- When `strtod` takes a character at least of each text that starts like a number, as many reads as there
  -- are characters leave nothing of the input, whatever it is, and the next read gives the end of the input.
  pub read_token-scanner_after :
      (n : ℕ) (s : Scanner)
      → TakesNumbers h strtod
      → length s.input ≤ n
      → (scanner_after n s).input ≡ []
        × (read_token {h = h} strtod table (scanner_after n s)).0.type ≡ Tokens.tok_eof
  read_token-scanner_after n s numbers l =
      let e = input-scanner_after n s numbers l in (e, read_token_at_end (scanner_after n s) e)
