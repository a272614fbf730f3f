-- ===== src/Tokenizer.antt =====
-- src/tokenizer.c: the scanner. The input is the text that is left, which holds no NUL; where C looks at the
-- terminating NUL, the list ends.
pub mod Progress
pub mod Stream
pub mod Words
use basset_lang.Prelude.{
  ℕ, zero, suc, ◌+◌, ◌-◌, Bool, true, false, not, ◌&&◌, ◌||◌, ltb, leb, ◌==◌, Option, none, some,
  List, [], ◌∷◌, length, get_elem?, take, drop, if◌then◌else◌,
}
use basset_lang.Host.{Host, Str}
use basset_lang.Tokens
use basset_lang.Vm.Stack.{num}
use basset_lang.KeywordHash.{KeywordEntry, keyword_hash_lookup}

-- `isalpha`, `isdigit` and `isalnum` in the C locale.
abbrev pub isalpha : ℕ → Bool
isalpha c = (leb 65 c && leb c 90) || (leb 97 c && leb c 122)

abbrev pub isdigit : ℕ → Bool
isdigit c = leb 48 c && leb c 57

abbrev pub is_ident_cont : ℕ → Bool
is_ident_cont c = isalpha c || isdigit c || c == 95

pub record Token (h : Host) : Type 0 where
  pub type : ℕ
  pub text : Option Str
  pub value : h.Double
  pub line : ℕ
  pub column : ℕ

-- `input`, its distance from `line_start`, and `line_num`.
pub record Scanner : Type 0 where
  pub input : Str
  pub column : ℕ
  pub line_num : ℕ

-- A token without its place, and how many characters it has.
pub record Lexeme (h : Host) : Type 0 where
  pub type : ℕ
  pub text : Option Str
  pub value : h.Double
  pub size : ℕ

-- `strtod`: the number, and how many characters it is written with.
abbrev pub Strtod : Host → Type 0
Strtod h = Str → h.Double × ℕ

unfoldable pub skip_chars : ℕ → Scanner → Scanner
skip_chars n s = record s { input = drop n s.input; column = s.column + n }

-- The blanks and tabs at the front.
unfoldable pub blanks : Str → ℕ
blanks [] = 0
blanks (c ∷ text) = let rest = blanks text in if c == 32 || c == 9 then suc rest else 0

unfoldable pub skip_whitespace : Scanner → Scanner
skip_whitespace s = skip_chars (blanks s.input) s

-- The characters before the next one that is `stop`.
unfoldable pub until : ℕ → Str → ℕ
until stop [] = 0
until stop (c ∷ text) = let rest = until stop text in if c == stop then 0 else suc rest

abbrev pub starts_with : ℕ → Str → Bool
starts_with c [] = false
starts_with c (d ∷ text) = d == c

abbrev pub starts_digit : Str → Bool
starts_digit [] = false
starts_digit (c ∷ text) = isdigit c

unfoldable pub starts_number : Str → Bool
starts_number [] = false
starts_number (c ∷ text) = isdigit c || (c == 46 && starts_digit text)

-- The characters that are a token by themselves.
abbrev pub single_tokens : List (ℕ × ℕ)
single_tokens =
    (44, Tokens.tok_ccom)
    ∷ (58, Tokens.tok_ceos)
    ∷ (59, Tokens.tok_csc)
    ∷ (35, Tokens.tok_cpnd)
    ∷ (60, Tokens.tok_clt)
    ∷ (62, Tokens.tok_cgt)
    ∷ (61, Tokens.tok_ceq)
    ∷ (94, Tokens.tok_cexp)
    ∷ (42, Tokens.tok_cmul)
    ∷ (43, Tokens.tok_cplus)
    ∷ (45, Tokens.tok_cminus)
    ∷ (47, Tokens.tok_cdiv)
    ∷ (40, Tokens.tok_clprn)
    ∷ (41, Tokens.tok_crprn)
    ∷ (36, Tokens.tok_cdol)
    ∷ (63, Tokens.tok_question)
    ∷ []

unfoldable pub single_token : List (ℕ × ℕ) → ℕ → Option ℕ
single_token [] c = none
single_token ((d, token) ∷ table) c = if c == d then some token else single_token table c

-- A keyword that is the first `len` characters.
unfoldable pub match_keyword : List (List KeywordEntry) → Str → ℕ → Option ℕ
match_keyword table text len = keyword_hash_lookup table (take len text)

-- `max_try_len`, from the length `len` on, with at most `left` more characters.
unfoldable pub max_try : ℕ → ℕ → Str → ℕ
max_try zero len text = 16
max_try (suc left) len [] = 16
max_try (suc left) len (c ∷ text) =
    let rest = max_try left (suc len) text in if is_ident_cont c || c == 36 then rest else suc len

-- The character at the place is no letter.
abbrev pub ends_word : Option ℕ → Bool
ends_word none = true
ends_word (some c) = not (isalpha c)

-- The length and the token of the best keyword so far, and whether the search stops there.
unfoldable pub better : Option ℕ → Bool → ℕ → ℕ × ℕ → (ℕ × ℕ) × Bool
better none clean len best = (best, false)
better (some token) clean len best =
    if clean
    then ((len, token), true)
    else ((if best.0 == 0 || ltb best.0 len then (len, token) else best), false)

-- The lengths from `len` on, `left` of them. C looks up lengths beyond the terminating NUL too; as no keyword
-- holds a NUL, none is found there, and here a length beyond the text stands for the text.
unfoldable pub best_keyword : List (List KeywordEntry) → Str → ℕ → ℕ → ℕ × ℕ → ℕ × ℕ
best_keyword table text zero len best = best
best_keyword table text (suc left) len best =
    let (best', stop) =
      better (match_keyword table text len) (ends_word (get_elem? text len)) len best in
    let rest = best_keyword table text left (suc len) best' in if stop then best' else rest

-- Whether a keyword of `len` to 16 characters starts the text; `rest` is the text from `len - 1` on.
unfoldable pub keyword_from : List (List KeywordEntry) → Str → ℕ → ℕ → Str → Bool
keyword_from table text zero len rest = false
keyword_from table text (suc left) len [] = false
keyword_from table text (suc left) len (c ∷ rest) =
    let more = keyword_from table text left (suc len) rest in
    elim (match_keyword table text len) as (λ _. Bool) [ none ↦ more | some _ ↦ true ]

-- The characters of an identifier, which ends where a keyword starts.
unfoldable pub ident_size : List (List KeywordEntry) → Str → ℕ
ident_size table [] = 0
ident_size table (c ∷ text) =
    let rest = ident_size table text in
    if is_ident_cont c then (if keyword_from table text 16 1 text then 1 else suc rest) else 0

module _ {h : Host} where
  abbrev pub plain : ℕ → ℕ → Lexeme h
  plain type size = record { type = type; text = none; value = num h 0; size = size }

  abbrev pub worded : ℕ → Str → ℕ → Lexeme h
  worded type text size = record { type = type; text = some text; value = num h 0; size = size }

  -- A comment behind an apostrophe.
  unfoldable pub apostrophe : Str → Lexeme h
  apostrophe text = worded Tokens.tok_rem (82 ∷ 69 ∷ 77 ∷ []) (suc (until 10 text))

  -- The text behind a quote.
  unfoldable pub string_literal : Str → Lexeme h
  string_literal text =
      let len = until 34 text in
      let closing = if starts_with 34 (drop len text) then 1 else 0 in
      worded Tokens.tok_string (take len text) (suc (len + closing))

  unfoldable pub number_literal : Strtod h → Str → Lexeme h
  number_literal strtod text =
      let (value, size) = strtod text in
      record { type = Tokens.tok_number; text = none; value = value; size = size }

  unfoldable pub keyword : ℕ → ℕ → Str → Lexeme h
  keyword token len text =
      let comment = if token == Tokens.tok_rem then until 10 (drop len text) else 0 in
      worded token (take len text) (len + comment)

  unfoldable pub identifier : List (List KeywordEntry) → Str → Lexeme h
  identifier table text =
      let len = ident_size table text in
      let suffix = if starts_with 36 (drop len text) then 1 else 0 in
      worded Tokens.tok_ident (take (len + suffix) text) (len + suffix)

  unfoldable pub word : List (List KeywordEntry) → Str → Lexeme h
  word table text =
      let (len, token) = best_keyword table text (max_try 16 0 text - 1) 1 (0, 0) in
      if ltb 0 len then keyword token len text else identifier table text

  -- A word, or a character that is not known, which is skipped as an end of the input.
  unfoldable pub word_or_unknown : List (List KeywordEntry) → ℕ → Str → Lexeme h
  word_or_unknown table c text = if isalpha c then word table text else plain Tokens.tok_eof 1

  unfoldable pub punctuation : List (List KeywordEntry) → ℕ → Str → Lexeme h
  punctuation table c rest =
      let single : Lexeme h = elim (single_token single_tokens c) as (λ _. Lexeme h) [
        | none ↦ word_or_unknown table c (c ∷ rest)
        | some token ↦ plain token 1
      ] in
      if c == 60 && starts_with 61 rest
      then plain Tokens.tok_cle 2
      else if c == 60 && starts_with 62 rest
      then plain Tokens.tok_cne 2
      else if c == 62 && starts_with 61 rest
      then plain Tokens.tok_cge 2
      else single

  unfoldable pub read_lexeme : Strtod h → List (List KeywordEntry) → Str → Lexeme h
  read_lexeme strtod table [] = plain Tokens.tok_eof 0
  read_lexeme strtod table (c ∷ rest) =
      if c == 10
      then plain Tokens.tok_ccr 1
      else if c == 39
      then apostrophe rest
      else if c == 34
      then string_literal rest
      else if starts_number (c ∷ rest)
      then number_literal strtod (c ∷ rest)
      else punctuation table c rest

  -- The scanner behind the token; a newline begins a line.
  unfoldable pub behind : Lexeme h → Scanner → Scanner
  behind lexeme s =
      let s' = skip_chars lexeme.size s in
      if starts_with 10 s.input then record s' { column = 0; line_num = s.line_num + 1 } else s'

  unfoldable pub read_token : Strtod h → List (List KeywordEntry) → Scanner → Token h × Scanner
  read_token strtod table s₀ =
      let s = skip_whitespace s₀ in
      let lexeme = read_lexeme strtod table s.input in
      (
        record {
          type = lexeme.type;
          text = lexeme.text;
          value = lexeme.value;
          line = s.line_num;
          column = s.column;
        },
        behind lexeme s,
      )

-- The tokenizer: the scanner and two tokens.
pub record Tokenizer (h : Host) : Type 0 where
  pub scanner : Scanner
  pub current : Token h
  pub lookahead : Token h

module _ {h : Host} where
  unfoldable pub tokenizer_init : Strtod h → List (List KeywordEntry) → Str → Tokenizer h
  tokenizer_init strtod table input =
      let (current, s₁) =
        read_token strtod table (record { input = input; column = 0; line_num = 1 }) in
      let (lookahead, s₂) = read_token strtod table s₁ in
      record { scanner = s₂; current = current; lookahead = lookahead }

  unfoldable pub tokenizer_next : Strtod h → List (List KeywordEntry) → Tokenizer h → Tokenizer h
  tokenizer_next strtod table tok =
      let (lookahead, s) = read_token strtod table tok.scanner in
      record { scanner = s; current = tok.lookahead; lookahead = lookahead }
