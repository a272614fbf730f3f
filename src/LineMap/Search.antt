-- ===== src/LineMap/Search.antt =====
-- The binary search of `vm_find_line_offset` against its contract on a sorted map.
use basset_lang.Prelude.{
  ℕ, zero, suc, ◌+◌, ◌-◌, ◌/◌, ◌≤◌, ◌<◌, ◌≡◌, ap, arith, to_int32, some, List, length, get_elem?,
  get_elem?-some, some_in_range, ltb, ltb→lt, lt→ltb, ◌==◌, ==_iff, false, Bool-cases, inl, inr,
  ◌≢◌,
}
use basset_lang.Program.{LineMapping}
use basset_lang.LineMap.{search_line, find_line_offset}

-- The lines are in strictly increasing order.
abbrev pub IsSorted : List LineMapping → Type 0
IsSorted map =
    (i j : ℕ) (a b : LineMapping)
    → get_elem? map i ≡ some a
    → get_elem? map j ≡ some b
    → i < j
    → a.line_number < b.line_number

not_equal : (a b : ℕ) → (a == b) ≡ false → a ≢ b
not_equal a b h = ground arith

not_below : (a b : ℕ) → ltb a b ≡ false → b ≤ a
not_below a b h = ground arith

-- In a sorted map two entries with one line stand at one place.
line_place :
    (map : List LineMapping) (i j : ℕ) (a b : LineMapping)
    → IsSorted map
    → get_elem? map i ≡ some a
    → get_elem? map j ≡ some b
    → a.line_number ≡ b.line_number
    → i ≡ j
line_place map i j a b sorted at_i at_j same = elim (Bool-cases (ltb i j)) [
  | inl below ↦ absurd (omega (arith, sorted i j a b at_i at_j (ltb→lt i j below)))
  | inr above ↦ elim (Bool-cases (ltb j i)) [
    | inl below ↦ absurd (omega (arith, sorted j i b a at_j at_i (ltb→lt j i below)))
    | inr same_place ↦ omega (arith, not_below i j above, not_below j i same_place)
  ]
]

-- In a sorted map an entry with a smaller line stands before.
line_before :
    (map : List LineMapping) (i j : ℕ) (a b : LineMapping)
    → IsSorted map
    → get_elem? map i ≡ some a
    → get_elem? map j ≡ some b
    → a.line_number < b.line_number
    → i < j
line_before map i j a b sorted at_i at_j less = elim (Bool-cases (ltb j i)) [
  | inl below ↦ absurd (omega (arith, sorted j i b a at_j at_i (ltb→lt j i below)))
  | inr above ↦ elim (Bool-cases (i == j)) [
    | inl same ↦
        let p : a ≡ b = (let q : i ≡ j = (==_iff i j).0 same in cc) in
        absurd (omega (arith, ap (λ m. m.line_number) p))
    | inr other ↦ omega (arith, not_below j i above, not_equal i j other)
  ]
]

search_line-found :
    (fuel : ℕ) (map : List LineMapping) (i : ℕ) (m : LineMapping) (left end : ℕ)
    → IsSorted map
    → get_elem? map i ≡ some m
    → left ≤ i
    → i < end
    → end ≤ length map
    → end - left < fuel
    → search_line fuel map m.line_number left end ≡ to_int32 m.pc_offset
unfolding search_line
search_line-found zero map i m left end sorted at_i low high fits enough = absurd (omega arith)
search_line-found (suc fuel) map i m left end sorted at_i low high fits enough =
    let mid : ℕ = left + (end - 1 - left) / 2 in
    let (n, at_mid) = get_elem?-some map mid (omega arith) in
    rw (lt→ltb left end (omega arith)) (
      rw at_mid (elim (Bool-cases (n.line_number == m.line_number)) [
        | inl same ↦ rw same (
            let place : mid ≡ i =
              line_place map mid i n m sorted at_mid at_i ((==_iff _ _).0 same) in
            let q : n ≡ m = cc in ap (λ k. to_int32 k.pc_offset) q)
        | inr other ↦ rw other (elim (Bool-cases (ltb n.line_number m.line_number)) [
          | inl less ↦ rw less (
              let before : mid < i =
                line_before map mid i n m sorted at_mid at_i (ltb→lt _ _ less) in
              search_line-found fuel map i m (mid + 1) end sorted at_i (omega arith) high fits
                (omega arith))
          | inr more ↦ rw more (
              let less : m.line_number < n.line_number =
                omega (arith, not_equal _ _ other, not_below _ _ more) in
              let after : i < mid = line_before map i mid m n sorted at_i at_mid less in
              search_line-found fuel map i m left mid sorted at_i low after (omega arith)
                (omega arith))
        ])
      ]))

-- In a map whose lines are strictly increasing, the binary search finds every line that the map has:
-- it returns the offset of its entry, as the `int32_t` that the code converts it to.
pub find_line_offset_complete :
    (map : List LineMapping) (i : ℕ) (m : LineMapping)
    → IsSorted map
    → get_elem? map i ≡ some m
    → find_line_offset map m.line_number ≡ to_int32 m.pc_offset
unfolding find_line_offset
find_line_offset_complete map i m sorted at_i =
    let inside : i < length map = some_in_range map i m at_i in
    search_line-found (suc (length map)) map i m 0 (length map) sorted at_i (omega arith) inside
      (omega arith) (omega arith)
