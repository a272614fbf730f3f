-- ===== src/Tests/Words.antt =====
-- A table of keywords.
use basset_lang.Prelude.{◌≡◌, none, [], ◌∷◌, List, length, leb, if◌then◌else◌}
use basset_lang.Host.{Str}
use basset_lang.KeywordHash.{KeywordEntry, upper, keyword_hash_init, keyword_hash_lookup}
use basset_lang.KeywordHash.Lookup.{last_token, keyword_hash_lookup-keyword_hash_init}

-- IF, ON, and IF again
abbrev pub keywords : List KeywordEntry
keywords =
    record { keyword = 73 ∷ 70 ∷ []; token = 1 }
    ∷ record { keyword = 79 ∷ 78 ∷ []; token = 2 }
    ∷ record { keyword = 73 ∷ 70 ∷ []; token = 3 }
    ∷ []

-- "if"
abbrev small_if : Str
small_if = 105 ∷ 102 ∷ []

keyword_hash_lookup-keyword_hash_init_example :
    keyword_hash_lookup (keyword_hash_init keywords) small_if
    ≡ (if leb 64 (length small_if) then none else last_token keywords (upper small_if))
keyword_hash_lookup-keyword_hash_init_example =
    keyword_hash_lookup-keyword_hash_init keywords small_if
