-- ===== src/Tokenizer/Words.antt =====
-- The words of src/tokenizer.c: a keyword of the table, or an identifier.
use basset_lang.Prelude.{◌>>=◌, ℕ, ◌≡◌, ◌⊎◌, some, List}
use basset_lang.Host.{Host, Str}
use basset_lang.Tokens
use basset_lang.KeywordHash.{KeywordEntry, keyword_hash_lookup}
use basset_lang.Tokenizer.{Lexeme, match_keyword}

-- The best keyword so far is none, or it is in the table.
abbrev Found : List (List KeywordEntry) → Str → ℕ × ℕ → Type 0
Found table text (len, token) = len ≡ 0 ⊎ match_keyword table text len ≡ some token

-- The type of a lexeme is the token of its text in the table.
abbrev IsKeyword : (h : Host) → List (List KeywordEntry) → Lexeme h → Type 0
IsKeyword h table lexeme = (lexeme.text >>= keyword_hash_lookup table) ≡ some lexeme.type
