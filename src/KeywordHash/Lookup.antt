-- ===== src/KeywordHash/Lookup.antt =====
-- The lookup of src/keyword_hash.c against a search of the keywords.
use basset_lang.Prelude.{
  ℕ, zero, suc, ◌<◌, ◌≡◌, ◌≢◌, refl, sym, ap, ◌∙◌, arith, Bool, true, false, leb, ◌==◌, ==_iff,
  Option, none, some, Bool-cases, inl, inr, List, [], ◌∷◌, length, get_elem?, get_elem?-some, set,
  get_elem?-set_self, get_elem?-set_ne, length-set, length-replicate, replicate, if◌then◌else◌,
  ◌>>=◌,
}
use basset_lang.Host.{Str}
use basset_lang.Compiler.{same_text}
use basset_lang.Compiler.Pools.{same_text-eq}
use basset_lang.KeywordHash.{
  KeywordEntry, hash_string, insert, insert_all, keyword_hash_init, upper, find_in,
  keyword_hash_lookup,
}

-- The token of the last entry of the keywords that is the text.
unfoldable pub last_token : List KeywordEntry → Str → Option ℕ
last_token [] text = none
last_token (e ∷ es) text = elim (last_token es text) [
  | some token ↦ some token
  | none ↦ if same_text text e.keyword then some e.token else none
]

-- What the chain of a text has of it.
abbrev chain_token : List (List KeywordEntry) → Str → Option ℕ
chain_token table text = get_elem? table (hash_string text) >>= λ chain. find_in chain text

hash_below : (text : Str) → hash_string text < 256
unfolding hash_string
hash_below text = omega arith

get_hash :
    (table : List (List KeywordEntry)) (text : Str)
    → length table ≡ 256
    → (chain : List KeywordEntry) × (get_elem? table (hash_string text) ≡ some chain)
get_hash table text size =
    let small = hash_below text in get_elem?-some table (hash_string text) (omega arith)

insert-set :
    (table : List (List KeywordEntry)) (e : KeywordEntry) (chain : List KeywordEntry)
    → get_elem? table (hash_string e.keyword) ≡ some chain
    → insert table e ≡ set table (hash_string e.keyword) (e ∷ chain)
unfolding insert
insert-set table e chain here = rw (insert, here) refl

find_in-cons :
    (e : KeywordEntry) (chain : List KeywordEntry) (text : Str)
    → find_in (e ∷ chain) text
      ≡ (if same_text text e.keyword then some e.token else find_in chain text)
unfolding find_in
find_in-cons e chain text = refl

not_both : (b : Bool) → b ≡ true → b ≡ false → ⊥
not_both true p q = cc
not_both false p q = cc

-- An insertion is seen by its own text and by no other.
chain_token-insert :
    (table : List (List KeywordEntry)) (e : KeywordEntry) (text : Str)
    → length table ≡ 256
    → chain_token (insert table e) text
      ≡ (if same_text text e.keyword then some e.token else chain_token table text)
chain_token-insert table e text size =
    let (chain, here) = get_hash table e.keyword size in
    let h = hash_string e.keyword in
    let small = hash_below e.keyword in
    let inside : h < length table = omega arith in
    let new = get_elem?-set_self table h (e ∷ chain) inside in
    elim (Bool-cases (hash_string text == h)) [
      | inl q ↦
          let same = (==_iff (hash_string text) h).0 q in
          rw (insert-set table e chain here, same, new, here) (find_in-cons e chain text)
      | inr q ↦
          let other : h ≢ hash_string text =
            λ p. absurd (let t = (==_iff (hash_string text) h).1 (sym p) in not_both _ t q) in
          let text_differs : same_text text e.keyword ≡ false =
            elim (Bool-cases (same_text text e.keyword)) [
              | inl p ↦ absurd (other (ap hash_string (sym (same_text-eq text e.keyword p))))
              | inr p ↦ p
            ] in
          rw
            (
              insert-set table e chain here,
              get_elem?-set_ne table h (hash_string text) (e ∷ chain) other,
              text_differs,
            )
            refl
    ]

length-insert :
    (table : List (List KeywordEntry)) (e : KeywordEntry)
    → length table ≡ 256
    → length (insert table e) ≡ 256
length-insert table e size =
    let (chain, here) = get_hash table e.keyword size in
    rw (insert-set table e chain here) (length-set table (hash_string e.keyword) (e ∷ chain) ∙ size)

find_in-nil : (text : Str) → find_in [] text ≡ none
unfolding find_in
find_in-nil text = refl

-- `last_token` over what was there before.
over : Option ℕ → Option ℕ → Option ℕ
over none old = old
over (some token) old = some token

over-none : (o : Option ℕ) → over o none ≡ o
unfolding over
over-none none = refl
over-none (some token) = refl

chain_token-insert_all :
    (es : List KeywordEntry) (table : List (List KeywordEntry)) (text : Str)
    → length table ≡ 256
    → chain_token (insert_all table es) text ≡ over (last_token es text) (chain_token table text)
unfolding insert_all last_token over
chain_token-insert_all [] table text size = refl
chain_token-insert_all (e ∷ es) table text size =
    chain_token-insert_all es (insert table e) text (length-insert table e size)
    ∙ ap (over (last_token es text)) (chain_token-insert table e text size)
    ∙ go (last_token es text) (same_text text e.keyword)
  where
    go :
        (last : Option ℕ) (b : Bool)
        → over last (if b then some e.token else chain_token table text)
          ≡ over
              (elim last [ some token ↦ some token | none ↦ if b then some e.token else none ])
              (chain_token table text)
    go none true = refl
    go none false = refl
    go (some token) b = refl

get_elem?-replicate :
    (n i : ℕ) → i < n → get_elem? {A = List KeywordEntry} (replicate n []) i ≡ some []
unfolding replicate
get_elem?-replicate zero i h = absurd (omega arith)
get_elem?-replicate (suc n) zero h = refl
get_elem?-replicate (suc n) (suc i) h = get_elem?-replicate n i (omega arith)

-- A text of at least 64 characters is not found. Any other is looked up in capitals: the hash table that
-- was built from a list of keywords finds the token of the last keyword of the list that is the text, or
-- nothing where no keyword is.
pub keyword_hash_lookup-keyword_hash_init :
    (keywords : List KeywordEntry) (text : Str)
    → keyword_hash_lookup (keyword_hash_init keywords) text
      ≡ (if leb 64 (length text) then none else last_token keywords (upper text))
unfolding keyword_hash_lookup keyword_hash_init
keyword_hash_lookup-keyword_hash_init keywords text =
    let t = upper text in
    let start = replicate 256 [] in
    let size : length start ≡ 256 = length-replicate 256 [] in
    let empty : chain_token start t ≡ none =
      rw (get_elem?-replicate 256 (hash_string t) (hash_below t)) (find_in-nil t) in
    let found : chain_token (insert_all start keywords) t ≡ last_token keywords t =
      chain_token-insert_all keywords start t size
      ∙ ap (over (last_token keywords t)) empty
      ∙ over-none (last_token keywords t) in
    rw found refl
