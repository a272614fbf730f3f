-- ===== src/Vm/Input.antt =====
-- src/vm.c, `is_valid_numeric_input`, `get_next_input_value` and the opcodes of INPUT.
-- The buffer holds at most 255 bytes, so that no value is cut off when it is copied.
use basset_lang.Prelude.{
  ℕ, Bool, true, false, not, ◌&&◌, ◌||◌, Option, none, some, [], ◌∷◌, ◌++◌, length, get_elem?,
  store_at, leb, ◌==◌, if◌then◌else◌, ◌>>=◌,
}
use basset_lang.Host.{Host, Str}
use basset_lang.Vm.State.{Input, Vm}
use basset_lang.Vm.Stack.{num, next}

abbrev pub is_blank : ℕ → Bool
is_blank c = c == 32 || c == 9

abbrev pub is_digit : ℕ → Bool
is_digit c = leb 48 c && leb c 57

unfoldable pub skip_blanks : Str → Str
skip_blanks [] = []
skip_blanks (c ∷ s) = let rest = skip_blanks s in if is_blank c then rest else c ∷ s

-- Where the scan stands: `exponent` is just after an `e`, and `signed_exponent` after its sign.
pub data Mode : Type 0 where
  normal exponent signed_exponent : Mode

pub record Scan : Type 0 where
  pub mode : Mode
  pub has_digit : Bool
  pub has_decimal : Bool
  pub has_e : Bool

-- The loop of `is_valid_numeric_input`. The digit that must follow an exponent is read again.
scan_char : ℕ → Scan → Option Scan
scan_char c s =
    if is_digit c then some (record s { mode = normal; has_digit = true }) else elim s.mode [
      | normal ↦
          if c == 46 && not s.has_decimal && not s.has_e
          then some (record s { has_decimal = true })
          else if (c == 101 || c == 69) && not s.has_e && s.has_digit
          then some (record s { mode = exponent; has_e = true })
          else if is_blank c
          then some s
          else none
      | exponent ↦ if c == 43 || c == 45 then some (record s { mode = signed_exponent }) else none
      | signed_exponent ↦ none
    ]

scan_number : Str → Scan → Bool
unfolding scan_char
scan_number [] s = elim s.mode [ normal ↦ s.has_digit | _ ↦ false ]
scan_number (c ∷ rest) s = elim (scan_char c s) [ none ↦ false | some s' ↦ scan_number rest s' ]

abbrev pub skip_sign : Str → Str
skip_sign [] = []
skip_sign (c ∷ s) = if c == 43 || c == 45 then s else c ∷ s

unfoldable pub is_valid_numeric_input : Str → Bool
unfolding skip_blanks scan_number
is_valid_numeric_input str = elim (skip_blanks str) [
  | [] ↦ false
  | c ∷ s ↦
      scan_number (skip_sign (c ∷ s))
        (record { mode = normal; has_digit = false; has_decimal = false; has_e = false })
]

-- The bytes up to the first `stop`, and those from it on.
unfoldable pub split_at_byte : ℕ → Str → Str × Str
split_at_byte stop [] = ([], [])
split_at_byte stop (c ∷ s) =
    let rest = split_at_byte stop s in if c == stop then ([], c ∷ s) else (c ∷ rest.0, rest.1)

-- The value without its trailing blanks.
unfoldable pub trim_end : Str → Str
trim_end [] = []
trim_end (c ∷ s) =
    let rest = trim_end s in
    elim rest [ [] ↦ if is_blank c then [] else c ∷ [] | d ∷ t ↦ c ∷ d ∷ t ]

-- The line without its last byte, if that is a newline.
unfoldable pub chomp : Str → Str
chomp [] = []
chomp (c ∷ []) = if c == 10 then [] else c ∷ []
chomp (c ∷ d ∷ s) = c ∷ chomp (d ∷ s)

-- What is left after the closing quote: the comma is skipped.
after_quote : Str → Input
after_quote [] = none
after_quote (c ∷ s) = if c == 44 then some s else some (c ∷ s)

-- The next value of a line, and the rest of the line if more is to be read.
unfoldable pub next_value : Str → Str × Input
unfolding skip_blanks split_at_byte trim_end after_quote
next_value line = elim (skip_blanks line) [
  | [] ↦ ([], none)
  | c ∷ s ↦
      let (quoted, after) = split_at_byte 34 s in
      let (plain, more) = split_at_byte 44 (c ∷ s) in
      if c == 34
      then (quoted, elim after [ [] ↦ none | _ ∷ t ↦ after_quote t ])
      else (trim_end plain, elim more [ [] ↦ none | _ ∷ t ↦ some t ])
]

module _ {h : Host} where
  -- A line that is read is prompted for and echoed. At the end of the input nothing changes.
  unfoldable pub read_line : Vm h → Str × Vm h
  unfolding next_value chomp
  read_line vm =
      let (line, world) = h.fgets (h.printf (63 ∷ 32 ∷ []) vm.world) in
      elim line [
        | none ↦ ([], record vm { world = world })
        | some s ↦
            let (value, rest) = next_value (chomp s) in
            (value, record vm { world = h.printf (chomp s ++ 10 ∷ []) world; input = rest })
      ]

  unfoldable pub get_next_input_value : Vm h → Str × Vm h
  unfolding read_line
  get_next_input_value vm =
      let fresh = read_line vm in
      elim vm.input [
        | none ↦ fresh
        | some line ↦ let (value, rest) = next_value line in (value, record vm { input = rest })
      ]

  unfoldable pub set_number : ℕ → h.Double → Vm h → Option (Vm h)
  set_number operand d vm = do
    num_vars ← store_at vm.store.num_vars operand d
    some (record vm { store = record vm.store { num_vars = num_vars }; cpu = next vm.cpu })

  abbrev pub input_ended : Str → Vm h → Bool
  input_ended value vm = length value == 0 && elim vm.input [ none ↦ true | some _ ↦ false ]

  -- One round of the loop of OP_INPUT_NUM: on a value that is no number the program counter stays,
  -- so that the next step is the next round.
  unfoldable pub op_input_num : ℕ → Vm h → Option (Vm h)
  unfolding set_number
  op_input_num operand vm₀ =
      let (value, vm₁) = get_next_input_value vm₀ in
      if input_ended value vm₁
      then set_number operand (num h 0) vm₁
      else if is_valid_numeric_input value
      then set_number operand (h.atof value) vm₁
      else some (record vm₁ {
        world = h.printf (69 ∷ 82 ∷ 82 ∷ 79 ∷ 82 ∷ 32 ∷ 45 ∷ 32 ∷ 49 ∷ 56 ∷ 10 ∷ []) vm₁.world;
        input = none;
      })

  unfoldable pub op_input_str : ℕ → Vm h → Option (Vm h)
  op_input_str operand vm₀ = do
    let got = get_next_input_value vm₀
    str_vars ← store_at got.1.store.str_vars operand (some got.0)
    some (record got.1 { store = record got.1.store { str_vars = str_vars }; cpu = next got.1.cpu })

  unfoldable pub op_input_prompt : ℕ → Vm h → Option (Vm h)
  op_input_prompt operand vm = do
    prompt ← get_elem? vm.program.string_pool operand
    some (record vm { world = h.printf prompt vm.world; cpu = next vm.cpu })
