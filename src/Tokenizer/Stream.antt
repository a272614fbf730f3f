-- ===== src/Tokenizer/Stream.antt =====
-- The two tokens that src/tokenizer.c holds, as a window on the tokens of the input.
use basset_lang.Prelude.{ℕ, zero, suc, ◌≡◌, refl, ap, ◌∙◌, List}
use basset_lang.Host.{Host, Str}
use basset_lang.Tokens
use basset_lang.KeywordHash.{KeywordEntry}
use basset_lang.Tokenizer.{Scanner, Strtod, Tokenizer, read_token, tokenizer_init, tokenizer_next}
use basset_lang.Tokenizer.Progress.{scanner_after}

-- The scanner at the start of the input.
abbrev pub start : Str → Scanner
start input = record { input = input; column = 0; line_num = 1 }

module _ (h : Host) (strtod : Strtod h) (table : List (List KeywordEntry)) where
  -- The tokenizer whose current token is the one that the scanner is at.
  tokenizer_at : Scanner → Tokenizer h
  tokenizer_at s =
      let (current, s₁) = read_token strtod table s in
      let (lookahead, s₂) = read_token strtod table s₁ in
      record { scanner = s₂; current = current; lookahead = lookahead }

  -- The tokenizer after `n` calls of `tokenizer_next`.
  unfoldable pub tokenizer_after : ℕ → Tokenizer h → Tokenizer h
  tokenizer_after zero tok = tok
  tokenizer_after (suc n) tok = tokenizer_after n (tokenizer_next strtod table tok)

  tokenizer_init-tokenizer_at :
      (input : Str) → tokenizer_init strtod table input ≡ tokenizer_at (start input)
  unfolding tokenizer_init tokenizer_at
  tokenizer_init-tokenizer_at input = refl

  tokenizer_next-tokenizer_at :
      (s : Scanner)
      → tokenizer_next strtod table (tokenizer_at s)
        ≡ tokenizer_at (read_token {h = h} strtod table s).1
  unfolding tokenizer_next tokenizer_at
  tokenizer_next-tokenizer_at s = refl

  tokenizer_after-tokenizer_at :
      (n : ℕ) (s : Scanner)
      → tokenizer_after n (tokenizer_at s) ≡ tokenizer_at (scanner_after h strtod table n s)
  unfolding tokenizer_after scanner_after
  tokenizer_after-tokenizer_at zero s = refl
  tokenizer_after-tokenizer_at (suc n) s =
      ap (tokenizer_after n) (tokenizer_next-tokenizer_at s)
      ∙ tokenizer_after-tokenizer_at n (read_token {h = h} strtod table s).1

  current-tokenizer_at :
      (s : Scanner) → (tokenizer_at s).current ≡ (read_token {h = h} strtod table s).0
  unfolding tokenizer_at
  current-tokenizer_at s = refl

  -- After `n` calls of `tokenizer_next` on a new tokenizer, the current token is the one that follows the
  -- first `n` tokens of the input, for every `n`: the lookahead drops no token and repeats none.
  pub current-tokenizer_after :
      (n : ℕ) (input : Str)
      → (tokenizer_after n (tokenizer_init strtod table input)).current
        ≡ (read_token strtod table (scanner_after h strtod table n (start input))).0
  current-tokenizer_after n input =
      ap (λ tok. (tokenizer_after n tok).current) (tokenizer_init-tokenizer_at input)
      ∙ ap (λ tok. tok.current) (tokenizer_after-tokenizer_at n (start input))
      ∙ current-tokenizer_at (scanner_after h strtod table n (start input))
