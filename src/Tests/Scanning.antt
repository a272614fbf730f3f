-- ===== src/Tests/Scanning.antt =====
-- The tokens of a line.
use basset_lang.Prelude.{
  some, refl, replicate, ℕ, suc, ◌+◌, ◌-◌, ◌*◌, ◌<◌, ◌≡◌, arith, ◌⊎◌, pos, ◌||◌, ◌==◌, List, [],
  ◌∷◌, length, drop, if◌then◌else◌,
}
use basset_lang.Host.{Str}
use basset_lang.Tokens
use basset_lang.Compiler.{same_text}
use basset_lang.Vm.Arith.{strcmp}
use basset_lang.KeywordHash.{
  KeywordEntry, keyword_hash_init, keyword_hash_lookup, insert_all, insert, hash_string, upper,
  find_in,
}
use basset_lang.Tokenizer.{
  Strtod, Scanner, Tokenizer, isdigit, starts_number, read_token, skip_whitespace, skip_chars,
  blanks, read_lexeme, punctuation, single_token, word_or_unknown, word, best_keyword, better,
  match_keyword, keyword, max_try, identifier, ident_size, keyword_from, behind, number_literal,
  tokenizer_init,
}
use basset_lang.Tokenizer.Progress.{
  TakesNumbers, scanner_after, read_token-Proceeds, read_token-scanner_after,
}
use basset_lang.Tokenizer.Stream.{start, tokenizer_after, current-tokenizer_after}
use basset_lang.Tests.Hosts.{integers}
use basset_lang.Tests.Words.{keywords}

-- The digits and points at the front, and the number of the digits.
abbrev numeric_length : Str → ℕ
numeric_length [] = 0
numeric_length (c ∷ text) =
    let rest = numeric_length text in if isdigit c || c == 46 then suc rest else 0

abbrev digits : ℕ → Str → ℕ
digits acc [] = acc
digits acc (c ∷ text) =
    let rest = digits (acc * 10 + (c - 48)) text in if isdigit c then rest else acc

-- Integers; one character at least is part of the number.
abbrev whole_strtod : Strtod integers
whole_strtod text = (pos (digits 0 text), suc (numeric_length (drop 1 text)))

whole_strtod-TakesNumbers : TakesNumbers integers whole_strtod
whole_strtod-TakesNumbers text e = omega arith

abbrev table : List (List KeywordEntry)
table = keyword_hash_init keywords

-- IFA=12
abbrev line : Str
line = 73 ∷ 70 ∷ 65 ∷ 61 ∷ 49 ∷ 50 ∷ []

abbrev before : Scanner
before = start line

read_token-Proceeds_example :
    ((read_token {h = integers} whole_strtod table before).0.type ≡ Tokens.tok_eof
      × (read_token {h = integers} whole_strtod table before).1.input ≡ [])
    ⊎ length (read_token {h = integers} whole_strtod table before).1.input < length line
read_token-Proceeds_example =
    read_token-Proceeds integers whole_strtod table before whole_strtod-TakesNumbers

read_token-scanner_after_example :
    (scanner_after integers whole_strtod table 6 before).input ≡ []
    × (read_token {h = integers} whole_strtod table
        (scanner_after integers whole_strtod table 6 before)).0.type
      ≡ Tokens.tok_eof
read_token-scanner_after_example =
    read_token-scanner_after integers whole_strtod table 6 before whole_strtod-TakesNumbers
      (omega arith)

current-tokenizer_after_example :
    (tokenizer_after integers whole_strtod table 2 (tokenizer_init whole_strtod table line)).current
    ≡ (read_token {h = integers} whole_strtod table
        (scanner_after integers whole_strtod table 2 before)).0
current-tokenizer_after_example = current-tokenizer_after integers whole_strtod table 2 line

abbrev scanned : Tokenizer integers
scanned = tokenizer_after integers whole_strtod table 6 (tokenizer_init whole_strtod table line)

-- IF, A, =, and 12: the keyword is found though a letter follows.
tokens_of_line :
    (read_token {h = integers} whole_strtod table before).0.type ≡ 3
    × (read_token {h = integers} whole_strtod table
        (scanner_after integers whole_strtod table 1 before)).0.text
      ≡ some (65 ∷ [])
    × (read_token {h = integers} whole_strtod table
        (scanner_after integers whole_strtod table 3 before)).0.value
      ≡ pos 12
unfolding read_token skip_whitespace skip_chars blanks read_lexeme starts_number punctuation
    single_token word_or_unknown word best_keyword better match_keyword keyword max_try
    keyword_hash_lookup keyword_hash_init insert_all insert hash_string upper find_in identifier
    ident_size keyword_from behind number_literal scanner_after same_text replicate strcmp
tokens_of_line = (refl, refl, refl)

-- IFA, whose word is IF
abbrev joined : Str
joined = 73 ∷ 70 ∷ 65 ∷ []
