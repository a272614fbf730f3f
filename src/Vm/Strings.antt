-- ===== src/Vm/Strings.antt =====
-- src/vm.c, "String Operations" and OP_FN_ERR. A length or an index is an `int`: where the source
-- overflows one the result is undefined.
use basset_lang.Prelude.{
  ℕ, ◌-◌, ℤ, pos, pos_part, ltb_ℤ, ◌+ℤ◌, ◌-ℤ◌, low_byte, int32, ◌||◌, ltb, leb, ◌==◌, Option, some,
  List, [], ◌∷◌, get_elem?, length, take, drop, if◌then◌else◌, ◌>>=◌,
}
use basset_lang.Host.{Host, Str}
use basset_lang.Vm.State.{Cpu}
use basset_lang.Vm.Stack.{num, next, vm_push_number, vm_push_string, vm_pop_number, vm_pop_string}

-- The buffer of OP_STR_LEFT: `malloc(len + 1)`, then a copy that ends at the terminator.
unfoldable pub left_string : Str → ℤ → Option Str
left_string s len = do let kept = pos_part len; _ ← int32 (pos kept +ℤ pos 1); some (take kept s)

unfoldable pub right_string : Str → ℤ → Str
right_string s len =
    let n = length s in
    let kept = if ltb n (pos_part len) then n else pos_part len in drop (n - kept) s

-- The length that OP_STR_MID takes of the `rest` bytes from the start.
abbrev pub mid_length : ℤ → ℕ → ℕ
mid_length len rest = if ltb_ℤ len (pos 0) || ltb_ℤ (pos rest) len then rest else pos_part len

unfoldable pub mid_string : Str → ℤ → ℤ → Option Str
mid_string s start len = do
  start' ← int32 (start -ℤ pos 1)
  let first = pos_part start'
  some
      (if leb (length s) first then [] else take (mid_length len (length s - first)) (drop first s))

unfoldable pub mid_rest_string : Str → ℤ → Option Str
mid_rest_string s start = do
  start' ← int32 (start -ℤ pos 1)
  let first = pos_part start'
  some (if leb (length s) first then [] else take (length s - first) (drop first s))

-- `result[0] = (char)(int)code`: the byte 0 gives the empty string.
abbrev pub chr : ℤ → Str
chr code = if low_byte code == 0 then [] else low_byte code ∷ []

-- `str[0] ? (unsigned char)str[0] : 0`
abbrev pub asc : Str → ℕ
asc [] = 0
asc (b ∷ _) = b

module _ {h : Host} where
  -- Push the result of a string function, where it is defined.
  abbrev push_result : Option Str → Cpu h → Option (Cpu h)
  push_result r c = do s ← r; some (next (vm_push_string s c))

  unfoldable pub op_str_push : List Str → ℕ → Cpu h → Option (Cpu h)
  op_str_push pool operand c = push_result (get_elem? pool operand) c

  unfoldable pub op_left : Cpu h → Option (Cpu h)
  op_left c₀ =
      let (len_d, c₁) = vm_pop_number c₀ in
      let (str, c₂) = vm_pop_string c₁ in
      if c₂.trap_triggered then some c₂ else push_result (left_string str (h.to_int len_d)) c₂

  unfoldable pub op_right : Cpu h → Option (Cpu h)
  op_right c₀ =
      let (len_d, c₁) = vm_pop_number c₀ in
      let (str, c₂) = vm_pop_string c₁ in
      if c₂.trap_triggered
      then some c₂
      else push_result (some (right_string str (h.to_int len_d))) c₂

  unfoldable pub op_mid : Cpu h → Option (Cpu h)
  op_mid c₀ =
      let (len_d, c₁) = vm_pop_number c₀ in
      let (start_d, c₂) = vm_pop_number c₁ in
      let (str, c₃) = vm_pop_string c₂ in
      if c₃.trap_triggered
      then some c₃
      else push_result (mid_string str (h.to_int start_d) (h.to_int len_d)) c₃

  -- There is no test of the trap here.
  unfoldable pub op_mid_2 : Cpu h → Option (Cpu h)
  op_mid_2 c₀ =
      let (start_d, c₁) = vm_pop_number c₀ in
      let (str, c₂) = vm_pop_string c₁ in push_result (mid_rest_string str (h.to_int start_d)) c₂

  -- OP_STR_LEN, OP_STR_ASC and OP_STR_VAL: a number from a string.
  unfoldable pub op_of_string : (Str → h.Double) → Cpu h → Cpu h
  op_of_string f c₀ =
      let (str, c₁) = vm_pop_string c₀ in
      if c₁.trap_triggered then c₁ else next (vm_push_number (f str) c₁)

  unfoldable pub op_len : Cpu h → Cpu h
  unfolding op_of_string
  op_len = op_of_string λ s. num h (length s)

  unfoldable pub op_asc : Cpu h → Cpu h
  unfolding op_of_string
  op_asc = op_of_string λ s. num h (asc s)

  unfoldable pub op_val : Cpu h → Cpu h
  unfolding op_of_string
  op_val = op_of_string h.atof

  -- OP_STR_CHR and OP_STR_STR: a string from a number, with no test of the trap.
  unfoldable pub op_to_string : (h.Double → Str) → Cpu h → Cpu h
  op_to_string f c₀ = let (d, c₁) = vm_pop_number c₀ in next (vm_push_string (f d) c₁)

  unfoldable pub op_chr : Cpu h → Cpu h
  unfolding op_to_string
  op_chr = op_to_string λ d. chr (h.to_int d)

  unfoldable pub op_str : Cpu h → Cpu h
  unfolding op_to_string
  op_str = op_to_string h.format_g

  unfoldable pub op_fn_err : Cpu h → Cpu h
  op_fn_err c = next (vm_push_number (num h c.error_code) c)
