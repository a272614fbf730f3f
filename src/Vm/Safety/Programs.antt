-- ===== src/Vm/Safety/Programs.antt =====
-- What a loaded program must satisfy: its operands are in range, and DATA entries lie in their pools.
use basset_lang.Prelude.{
  ℕ, ◌+◌, ◌<◌, ◌≤◌, ◌^◌, ◌≡◌, Bool, true, false, some, List, [], ◌∷◌, length, get_elem?, All,
}
use basset_lang.Host.{Host}
use basset_lang.Bytecode.{Op, Instruction}
use basset_lang.Program.{
  VariableInfo, data_numeric, data_string, data_null, data_other, DataEntry, CompiledProgram,
}
use basset_lang.Vm.Execute.{holds_strings}

-- Whether each slot holds an array of strings.
abbrev pub kinds : List VariableInfo → List Bool
kinds [] = []
kinds (v ∷ table) = holds_strings v ∷ kinds table

module _ {h : Host} where
  abbrev pub EntryOk : CompiledProgram h → DataEntry → Type 0
  EntryOk p e = elim e.type [
    | data_numeric ↦ e.index < length p.data_numeric_pool
    | data_string ↦ e.index < length p.data_string_pool
    | data_null ↦ Unit
    | data_other _ ↦ Unit
  ]

  -- The operand of the opcode at `pc` is in range.
  abbrev pub OperandOk : CompiledProgram h → ℕ → Op → ℕ → Type 0
  OperandOk p pc Op.push_const n = n < length p.const_pool
  OperandOk p pc Op.str_push n = n < length p.string_pool
  OperandOk p pc Op.input_prompt n = n < length p.string_pool
  OperandOk p pc Op.push_var n = n < length (kinds p.var_table)
  OperandOk p pc Op.pop_var n = n < length (kinds p.var_table)
  OperandOk p pc Op.str_push_var n = n < length (kinds p.var_table)
  OperandOk p pc Op.str_pop_var n = n < length (kinds p.var_table)
  OperandOk p pc Op.for_init n = n < length (kinds p.var_table)
  OperandOk p pc Op.input_num n = n < length (kinds p.var_table)
  OperandOk p pc Op.input_str n = n < length (kinds p.var_table)
  OperandOk p pc Op.data_read_num n = n < length (kinds p.var_table)
  OperandOk p pc Op.data_read_str n = n < length (kinds p.var_table)
  OperandOk p pc Op.array_get_1d n = get_elem? (kinds p.var_table) n ≡ some false
  OperandOk p pc Op.array_set_1d n = get_elem? (kinds p.var_table) n ≡ some false
  OperandOk p pc Op.array_get_2d n = get_elem? (kinds p.var_table) n ≡ some false
  OperandOk p pc Op.array_set_2d n = get_elem? (kinds p.var_table) n ≡ some false
  OperandOk p pc Op.str_array_get_1d n = get_elem? (kinds p.var_table) n ≡ some true
  OperandOk p pc Op.str_array_set_1d n = get_elem? (kinds p.var_table) n ≡ some true
  OperandOk p pc Op.str_array_get_2d n = get_elem? (kinds p.var_table) n ≡ some true
  OperandOk p pc Op.str_array_set_2d n = get_elem? (kinds p.var_table) n ≡ some true
  OperandOk p pc Op.dim_1d n = n < length (kinds p.var_table)
  OperandOk p pc Op.dim_2d n = n < length (kinds p.var_table)
  OperandOk p pc Op.on_goto n = pc + n < length p.code
  OperandOk p pc Op.on_gosub n = pc + n < length p.code
  OperandOk p pc _ n = Unit

  pub record ProgramOk (p : CompiledProgram h) : Type 0 where
    pub code_small : length p.code ≤ 2 ^ 32
    pub data_ok : All (EntryOk p) p.data_entries
    pub operands_ok :
        (pc : ℕ) (inst : Instruction)
        → get_elem? p.code pc ≡ some inst
        → OperandOk p pc inst.opcode inst.operand

-- The opcodes whose arguments can overflow an integer or free a string twice.
abbrev pub IsPlain : Op → Type 0
IsPlain Op.str_left = ⊥
IsPlain Op.str_mid = ⊥
IsPlain Op.str_mid_2 = ⊥
IsPlain Op.dim_2d = ⊥
IsPlain Op.point = ⊥
IsPlain Op.xio = ⊥
IsPlain _ = Unit
