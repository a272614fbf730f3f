-- ===== src/LineMap.antt =====
-- The binary search for the offset of a line: `vm_find_line_offset` of src/vm.c, and the same code
-- as `compiler_find_line_offset` of src/compiler.c.
pub mod Search
use basset_lang.Prelude.{
  ℕ, zero, suc, ◌+◌, ◌-◌, ◌/◌, ℤ, negsuc, to_int32, Bool, Option, none, some, List, length,
  get_elem?, ltb, ◌==◌, if◌then◌else◌,
}
use basset_lang.Program.{LineMapping}

-- The loop, over `left` and `right + 1`. The fuel bounds the rounds; -1 is "not found".
unfoldable pub search_line : ℕ → List LineMapping → ℕ → ℕ → ℕ → ℤ
search_line zero map line left end = negsuc 0
search_line (suc fuel) map line left end =
    let mid = left + (end - 1 - left) / 2 in
    let lower = search_line fuel map line (mid + 1) end in
    let upper = search_line fuel map line left mid in
    let body : ℤ = elim (get_elem? map mid) [
      | none ↦ negsuc 0
      | some m ↦
          if m.line_number == line
          then to_int32 m.pc_offset
          else if ltb m.line_number line
          then lower
          else upper
    ] in
    if ltb left end then body else negsuc 0

unfoldable pub find_line_offset : List LineMapping → ℕ → ℤ
unfolding search_line
find_line_offset map line = search_line (suc (length map)) map line 0 (length map)
