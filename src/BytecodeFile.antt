-- ===== src/BytecodeFile.antt =====
-- src/bytecode_file.c: a compiled program as the bytes of a file, and back. A writer puts the bytes of its
-- argument before those that follow. Numbers are little-endian.
pub mod Sections
pub mod Readers
pub mod RoundTrip
use basset_lang.Prelude.{
  ℕ, zero, suc, ◌+◌, ◌*◌, ◌/◌, ◌%◌, ◌^◌, leb, ◌==◌, Bool, true, false, ◌&&◌, not, Option, none,
  some, List, [], ◌∷◌, ◌++◌, length, take, if◌then◌else◌,
}
use basset_lang.Host.{Host, Str}
use basset_lang.Bytecode.{Op, Instruction, byte_of, decode}
use basset_lang.Program.{
  VarType, var_numeric, var_string, var_array_1d, var_array_2d, var_other, VariableInfo,
  LineMapping, DataType, data_numeric, data_string, data_null, data_other, DataEntry,
  CompiledProgram,
}

-- The eight bytes of a `double`.
pub record DoubleBytes (h : Host) : Type 0 where
  pub to_bytes : h.Double → List ℕ
  pub of_bytes : List ℕ → h.Double

-- A read: a value and the bytes left, an error, or behaviour that C leaves undefined.
pub data Result {ℓ} (A : Type ℓ) : Type ℓ where
  done : A → List ℕ → Result A
  failed undefined : Result A

infixl 5 ◌>>>◌
abbrev pub ◌>>>◌ {ℓ κ} : {A : Type ℓ} {B : Type κ} → Result A → (A → List ℕ → Result B) → Result B
done a s >>> f = f a s
failed >>> f = failed
undefined >>> f = undefined

-- `fwrite` and `fread` of an integer of `w` bytes.
unfoldable pub put : ℕ → ℕ → List ℕ → List ℕ
put zero n rest = rest
put (suc w) n rest = n % 256 ∷ put w (n / 256) rest

unfoldable pub get : ℕ → List ℕ → Result ℕ
get zero s = done 0 s
get (suc w) [] = failed
get (suc w) (b ∷ s) = get w s >>> λ n r. done (b + 256 * n) r

-- `fread` of `n` bytes.
unfoldable pub get_bytes : ℕ → List ℕ → Result (List ℕ)
get_bytes zero s = done [] s
get_bytes (suc n) [] = failed
get_bytes (suc n) (b ∷ s) = get_bytes n s >>> λ bs r. done (b ∷ bs) r

unfoldable pub write_count : ℕ → List ℕ → List ℕ
write_count count = put 4 (count % 2 ^ 32)

unfoldable pub read_count : List ℕ → Result ℕ
read_count = get 4

unfoldable pub write_string : Str → List ℕ → List ℕ
write_string str rest = let len = length str % 2 ^ 32 in put 4 len (take len str ++ rest)

-- The string that the bytes hold ends at the first NUL.
unfoldable pub until_nul : List ℕ → Str
until_nul [] = []
until_nul (zero ∷ bs) = []
until_nul (suc b ∷ bs) = suc b ∷ until_nul bs

unfoldable pub read_string : List ℕ → Result Str
read_string s = get 4 s >>> λ len s₁. get_bytes len s₁ >>> λ bs s₂. done (until_nul bs) s₂

unfoldable pub write_all {ℓ} : {A : Type ℓ} → (A → List ℕ → List ℕ) → List A → List ℕ → List ℕ
write_all write [] rest = rest
write_all write (x ∷ xs) rest = write x (write_all write xs rest)

unfoldable pub read_all {ℓ} : {A : Type ℓ} → (List ℕ → Result A) → ℕ → List ℕ → Result (List A)
read_all read zero s = done [] s
read_all read (suc n) s = read s >>> λ x s₁. read_all read n s₁ >>> λ xs s₂. done (x ∷ xs) s₂

-- An error with entries still to read: `compiled_program_free` frees pointers that were never set.
unfoldable pub or_dangling {ℓ} : {A : Type ℓ} → ℕ → Result A → Result A
or_dangling n (done x s) = done x s
or_dangling n failed = if n == 0 then failed else undefined
or_dangling n undefined = undefined

-- Entries that own a string.
unfoldable pub read_owned {ℓ} : {A : Type ℓ} → (List ℕ → Result A) → ℕ → List ℕ → Result (List A)
unfolding or_dangling
read_owned read zero s = done [] s
read_owned read (suc n) s =
    or_dangling n (read s) >>> λ x s₁. read_owned read n s₁ >>> λ xs s₂. done (x ∷ xs) s₂

-- A section: a count, and the entries.
unfoldable pub write_section {ℓ} : {A : Type ℓ} → (A → List ℕ → List ℕ) → List A → List ℕ → List ℕ
write_section write xs rest = write_count (length xs) (write_all write xs rest)

unfoldable pub read_section {ℓ} : {A : Type ℓ} → (List ℕ → Result A) → List ℕ → Result (List A)
read_section read s = read_count s >>> read_all read

unfoldable pub read_owned_section {ℓ} :
    {A : Type ℓ} → (List ℕ → Result A) → List ℕ → Result (List A)
read_owned_section read s = read_count s >>> read_owned read

unfoldable pub write_instruction : Instruction → List ℕ → List ℕ
write_instruction i rest = put 1 (byte_of i.opcode) (put 1 i.flags (put 2 i.operand rest))

unfoldable pub read_instruction : List ℕ → Result Instruction
read_instruction s = get 1 s >>> λ op s₁. get 1 s₁ >>> λ flags s₂. get 2 s₂ >>> λ operand s₃.
    done (record { opcode = decode op; flags = flags; operand = operand }) s₃

abbrev pub number_of_type : VarType → ℕ
number_of_type var_numeric = 0
number_of_type var_string = 1
number_of_type var_array_1d = 2
number_of_type var_array_2d = 3
number_of_type (var_other n) = n

unfoldable pub type_of_number : ℕ → VarType
type_of_number n =
    if n == 0
    then var_numeric
    else if n == 1
    then var_string
    else if n == 2
    then var_array_1d
    else if n == 3
    then var_array_2d
    else var_other n

unfoldable pub write_variable : VariableInfo → List ℕ → List ℕ
write_variable v rest =
    write_string v.name
      (put 2 v.slot (put 1 (number_of_type v.type) (put 2 v.array_dim1 (put 2 v.array_dim2 rest))))

-- One byte of the type is read, into the first byte of an `enum`; `upper` are the others, which were
-- never set.
unfoldable pub read_variable : ℕ → List ℕ → Result VariableInfo
read_variable upper s = read_string s >>> λ name s₁. get 2 s₁ >>> λ slot s₂. get 1 s₂ >>> λ type s₃.
    get 2 s₃ >>> λ dim1 s₄. get 2 s₄ >>> λ dim2 s₅.
    done
      (record {
        name = name;
        slot = slot;
        type = type_of_number (type + 256 * upper);
        array_dim1 = dim1;
        array_dim2 = dim2;
      })
      s₅

unfoldable pub write_line : LineMapping → List ℕ → List ℕ
write_line m rest = put 2 m.line_number (put 4 m.pc_offset rest)

unfoldable pub read_line : List ℕ → Result LineMapping
read_line s = get 2 s >>> λ line s₁.
    get 4 s₁ >>> λ pc s₂. done (record { line_number = line; pc_offset = pc }) s₂

abbrev pub number_of_data : DataType → ℕ
number_of_data data_numeric = 0
number_of_data data_string = 1
number_of_data data_null = 2
number_of_data (data_other n) = n

unfoldable pub data_of_number : ℕ → DataType
data_of_number n =
    if n == 0
    then data_numeric
    else if n == 1
    then data_string
    else if n == 2
    then data_null
    else data_other n

unfoldable pub write_entry : DataEntry → List ℕ → List ℕ
write_entry e rest = put 1 (number_of_data e.type) (put 4 (e.index % 2 ^ 32) rest)

unfoldable pub read_entry : List ℕ → Result DataEntry
read_entry s = get 1 s >>> λ type s₁.
    get 4 s₁ >>> λ index s₂. done (record { type = data_of_number type; index = index }) s₂

module _ {h : Host} where
  unfoldable pub write_double : DoubleBytes h → h.Double → List ℕ → List ℕ
  write_double d x rest = d.to_bytes x ++ rest

  unfoldable pub read_double : DoubleBytes h → List ℕ → Result h.Double
  read_double d s = get_bytes 8 s >>> λ bs r. done (d.of_bytes bs) r
