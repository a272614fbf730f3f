-- ===== src/Compiler.antt =====
-- src/compiler.c, up to the resolution of jumps: the tables that the compiler fills. A table with its
-- count and its capacity is a list; an index that C keeps in 16 bits is reduced modulo 2^16.
pub mod Tree
pub mod Emit
pub mod Expressions
pub mod Branches
pub mod Storage
pub mod Items
pub mod Loops
pub mod Output
pub mod Channels
pub mod Statements
pub mod Whole
pub mod Meaning
pub mod Execution
pub mod Operators
pub mod Growth
pub mod Refinement
pub mod Soundness
pub mod Pools
pub mod Fixups
pub mod Symbols
use basset_lang.Prelude.{
  ℕ, suc, ◌+◌, ◌%◌, ◌^◌, ℤ, pos, negsuc, Bool, true, false, not, ◌&&◌, ltb, leb, ◌==◌, Option, none,
  some, List, [], ◌∷◌, ◌++◌, length, get_elem?, store_at, if◌then◌else◌, ◌>>=◌,
}
use basset_lang.Host.{Host, Str}
use basset_lang.Bytecode.{Op, Instruction}
use basset_lang.Program.{
  VarType, var_numeric, var_string, var_array_1d, var_array_2d, var_other, VariableInfo,
  LineMapping, CompiledProgram,
}
use basset_lang.LineMap.{find_line_offset}
use basset_lang.Vm.Arith.{strcmp, is_eq}

pub data JumpType : Type 0 where
  jump_absolute jump_gosub jump_on_goto jump_on_gosub : JumpType

pub record JumpFixup : Type 0 where
  pub instruction_offset : ℕ
  pub target_line : ℕ
  pub type : JumpType

-- `error_msg` is modelled by the line that it names.
pub record CompilerState (h : Host) : Type 0 where
  pub program : CompiledProgram h
  pub jump_fixups : List JumpFixup
  pub current_line : ℕ
  pub has_error : Bool
  pub undefined_line : Option ℕ

-- The first index from `i` on whose entry passes the test.
unfoldable pub first_index {ℓ} : {A : Type ℓ} → (A → Bool) → List A → ℕ → Option ℕ
first_index test [] i = none
first_index test (x ∷ xs) i = if test x then some i else first_index test xs (suc i)

-- `strcmp(a, b) == 0`
abbrev pub same_text : Str → Str → Bool
same_text a b = is_eq (strcmp a b)

-- The slot of the first variable of the name, or -1.
unfoldable pub find_variable : List VariableInfo → Str → ℤ
find_variable [] name = negsuc 0
find_variable (v ∷ table) name =
    if same_text v.name name then pos v.slot else find_variable table name

-- Variables fall into strings, arrays and numbers, each with its limit.
pub data VarClass : Type 0 where
  string_var array_var numeric_var : VarClass

abbrev pub class_of : VarType → VarClass
class_of var_string = string_var
class_of var_array_1d = array_var
class_of var_array_2d = array_var
class_of var_numeric = numeric_var
class_of (var_other n) = numeric_var

-- MAX_STRING_VARS, MAX_ARRAYS and MAX_NUMERIC_VARS.
abbrev pub limit_of : VarClass → ℕ
limit_of string_var = 128
limit_of array_var = 64
limit_of numeric_var = 128

abbrev pub same_class : VarClass → VarClass → Bool
same_class string_var string_var = true
same_class array_var array_var = true
same_class numeric_var numeric_var = true
same_class _ _ = false

unfoldable pub count_class : VarClass → List VariableInfo → ℕ
count_class k [] = 0
count_class k (v ∷ table) =
    let rest = count_class k table in if same_class k (class_of v.type) then suc rest else rest

-- The operand of an instruction is the offset in 16 bits; a patch outside the code is undefined.
unfoldable pub patch : List Instruction → ℕ → ℕ → Option (List Instruction)
patch code at offset = do
  inst ← get_elem? code at
  store_at code at (record inst { operand = offset % 2 ^ 16 })

-- The loop of `compiler_resolve_jumps`: the code so far, and the line that is not defined.
unfoldable pub resolve :
    List LineMapping → List JumpFixup → List Instruction → Option (List Instruction × Option ℕ)
unfolding patch
resolve map [] code = some (code, none)
resolve map (fixup ∷ fixups) code = elim (find_line_offset map fixup.target_line) [
  | negsuc _ ↦ some (code, some fixup.target_line)
  | pos offset ↦ patch code fixup.instruction_offset offset >>= λ code'. resolve map fixups code'
]

unfoldable pub new_variable : Str → ℕ → VarType → VariableInfo
new_variable name slot type = record {
  name = name;
  slot = slot;
  type = type;
  array_dim1 = 0;
  array_dim2 = 0;
}

module _ {h : Host} where
  unfoldable pub compiler_find_variable : CompilerState h → Str → ℤ
  unfolding find_variable
  compiler_find_variable cs name = find_variable cs.program.var_table name

  -- The slot of an existing variable, -1 where its class is full, or a new slot: the place in the table,
  -- which the field `slot` keeps in 16 bits.
  unfoldable pub compiler_add_variable : Str → VarType → CompilerState h → ℤ × CompilerState h
  unfolding compiler_find_variable new_variable
  compiler_add_variable name type cs =
      let table = cs.program.var_table in
      let class = class_of type in
      let added : ℤ × CompilerState h = (
        pos (length table % 2 ^ 16),
        record cs {
          program = record cs.program {
            var_table = table ++ (new_variable name (length table % 2 ^ 16) type ∷ []);
          };
        },
      ) in
      elim (compiler_find_variable cs name) [
        | pos slot ↦ (pos slot, cs)
        | negsuc n ↦
            if leb (limit_of class) (count_class class table) then (negsuc 0, cs) else added
      ]

  -- An existing constant or a new one at the end of the pool; `n` is the index in 16 bits.
  unfoldable pub compiler_add_const : h.Double → CompilerState h → ℕ × CompilerState h
  unfolding first_index
  compiler_add_const value cs =
      let pool = cs.program.const_pool in
      elim (first_index (λ x. h.eq x value) pool 0) [
        | some i ↦ (i % 2 ^ 16, cs)
        | none ↦ (
          length pool % 2 ^ 16,
          record cs { program = record cs.program { const_pool = pool ++ (value ∷ []) } },
        )
      ]

  unfoldable pub compiler_add_string : Str → CompilerState h → ℕ × CompilerState h
  unfolding first_index
  compiler_add_string str cs =
      let pool = cs.program.string_pool in
      elim (first_index (λ x. same_text x str) pool 0) [
        | some i ↦ (i % 2 ^ 16, cs)
        | none ↦ (
          length pool % 2 ^ 16,
          record cs { program = record cs.program { string_pool = pool ++ (str ∷ []) } },
        )
      ]

  unfoldable pub compiler_emit : Op → ℕ → CompilerState h → CompilerState h
  compiler_emit opcode operand cs =
      let inst : Instruction = record { opcode = opcode; flags = 0; operand = operand } in
      record cs { program = record cs.program { code = cs.program.code ++ (inst ∷ []) } }

  unfoldable pub compiler_emit_no_operand : Op → CompilerState h → CompilerState h
  unfolding compiler_emit
  compiler_emit_no_operand opcode = compiler_emit opcode 0

  unfoldable pub compiler_emit_raw : ℕ → CompilerState h → CompilerState h
  unfolding compiler_emit
  compiler_emit_raw operand = compiler_emit Op.nop operand

  unfoldable pub compiler_add_line_mapping : ℕ → ℕ → CompilerState h → CompilerState h
  compiler_add_line_mapping line pc cs =
      let map : LineMapping = record { line_number = line; pc_offset = pc } in
      record cs { program = record cs.program { line_map = cs.program.line_map ++ (map ∷ []) } }

  unfoldable pub compiler_add_jump_fixup : ℕ → ℕ → JumpType → CompilerState h → CompilerState h
  compiler_add_jump_fixup pc target_line type cs =
      let fixup : JumpFixup = record {
        instruction_offset = pc;
        target_line = target_line;
        type = type;
      } in
      record cs { jump_fixups = cs.jump_fixups ++ (fixup ∷ []) }

  unfoldable pub compiler_resolve_jumps : CompilerState h → Option (CompilerState h)
  unfolding resolve
  compiler_resolve_jumps cs = do
    (code, undefined) ← resolve cs.program.line_map cs.jump_fixups cs.program.code
    let patched : CompilerState h = record cs { program = record cs.program { code = code } }
    some (elim undefined [
      | none ↦ patched
      | some line ↦ record patched { has_error = true; undefined_line = some line }
    ])
