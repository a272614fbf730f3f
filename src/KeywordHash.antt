-- ===== src/KeywordHash.antt =====
-- src/keyword_hash.c: the hash table of the keywords, built from a table of keywords with their tokens. A
-- chain is a list with its head first.
pub mod Lookup
use basset_lang.Prelude.{
  ℕ, zero, suc, ◌+◌, ◌*◌, ◌%◌, ◌^◌, ◌-◌, Bool, true, false, ◌&&◌, ltb, leb, ◌==◌, Option, none,
  some, List, [], ◌∷◌, length, get_elem?, set, replicate, if◌then◌else◌, ◌>>=◌,
}
use basset_lang.Host.{Str}
use basset_lang.Compiler.{same_text}

pub record KeywordEntry : Type 0 where
  pub keyword : Str
  pub token : ℕ

-- A `char` as an `int` on a machine where it is signed, added modulo 2^32.
unfoldable pub signed_char : ℕ → ℕ
signed_char c = if ltb c 128 then c else 2 ^ 32 - 256 + c

-- djb2 on `unsigned int`.
unfoldable pub hash_from : ℕ → Str → ℕ
unfolding signed_char
hash_from hash [] = hash
hash_from hash (c ∷ str) = hash_from ((hash * 33 + signed_char c) % 2 ^ 32) str

unfoldable pub hash_string : Str → ℕ
unfolding hash_from
hash_string str = hash_from 5381 str % 256

-- A new entry becomes the head of its chain.
unfoldable pub insert : List (List KeywordEntry) → KeywordEntry → List (List KeywordEntry)
insert table e =
    let h = hash_string e.keyword in
    elim (get_elem? table h) as (λ _. List (List KeywordEntry)) [
      | none ↦ table
      | some chain ↦ set table h (e ∷ chain)
    ]

unfoldable pub insert_all : List (List KeywordEntry) → List KeywordEntry → List (List KeywordEntry)
insert_all table [] = table
insert_all table (e ∷ es) = insert_all (insert table e) es

unfoldable pub keyword_hash_init : List KeywordEntry → List (List KeywordEntry)
keyword_hash_init keywords = insert_all (replicate 256 []) keywords

-- `toupper` in the C locale.
unfoldable pub toupper : ℕ → ℕ
toupper c = if leb 97 c && leb c 122 then c - 32 else c

unfoldable pub upper : Str → Str
unfolding toupper
upper [] = []
upper (c ∷ str) = toupper c ∷ upper str

-- The token of the first entry of a chain with the keyword.
unfoldable pub find_in : List KeywordEntry → Str → Option ℕ
find_in [] text = none
find_in (e ∷ chain) text = if same_text text e.keyword then some e.token else find_in chain text

-- `text` is the `len` characters, none of which is NUL.
unfoldable pub keyword_hash_lookup : List (List KeywordEntry) → Str → Option ℕ
keyword_hash_lookup table text =
    let found =
      get_elem? table (hash_string (upper text)) >>= λ chain. find_in chain (upper text) in
    if leb 64 (length text) then none else found
