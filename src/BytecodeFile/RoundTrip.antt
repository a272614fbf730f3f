-- ===== src/BytecodeFile/RoundTrip.antt =====
-- Round trips of src/bytecode_file.c: what is written is read back.
use basset_lang.Prelude.{◌^◌, ◌<◌, ◌≡◌, length, All}
use basset_lang.Host.{Host}
use basset_lang.Bytecode.{Instruction, byte_of, decode}
use basset_lang.Program.{VariableInfo, LineMapping, DataEntry, CompiledProgram}
use basset_lang.BytecodeFile.{
  DoubleBytes, number_of_type, type_of_number, number_of_data, data_of_number,
}
use basset_lang.BytecodeFile.Readers.{IsText}

-- The fields are of the width that the source gives them.
abbrev pub InstructionFits : Instruction → Type 0
InstructionFits i =
    (decode (byte_of i.opcode) ≡ i.opcode)
    × (byte_of i.opcode < 2 ^ 8)
    × (i.flags < 2 ^ 8)
    × (i.operand < 2 ^ 16)

abbrev pub VariableFits : VariableInfo → Type 0
VariableFits v =
    IsText v.name
    × (v.slot < 2 ^ 16)
    × (number_of_type v.type < 2 ^ 8)
    × (type_of_number (number_of_type v.type) ≡ v.type)
    × (v.array_dim1 < 2 ^ 16)
    × (v.array_dim2 < 2 ^ 16)

abbrev pub LineFits : LineMapping → Type 0
LineFits m = (m.line_number < 2 ^ 16) × (m.pc_offset < 2 ^ 32)

abbrev pub EntryFits : DataEntry → Type 0
EntryFits e =
    (number_of_data e.type < 2 ^ 8)
    × (data_of_number (number_of_data e.type) ≡ e.type)
    × (e.index < 2 ^ 32)

module _ {h : Host} where
  -- A `double` has eight bytes, and is read back from them.
  abbrev pub KeepsDoubles : DoubleBytes h → Type 0
  KeepsDoubles d = (x : h.Double) → (length (d.to_bytes x) ≡ 8) × (d.of_bytes (d.to_bytes x) ≡ x)

  -- The counts have 32 bits, and so have the lengths of the strings; no string holds a NUL.
  pub record FileFits (p : CompiledProgram h) : Type 0 where
    pub code : (length p.code < 2 ^ 32) × All InstructionFits p.code
    pub const_pool : length p.const_pool < 2 ^ 32
    pub string_pool : (length p.string_pool < 2 ^ 32) × All IsText p.string_pool
    pub var_table : (length p.var_table < 2 ^ 32) × All VariableFits p.var_table
    pub line_map : (length p.line_map < 2 ^ 32) × All LineFits p.line_map
    pub data_numeric_pool : length p.data_numeric_pool < 2 ^ 32
    pub data_string_pool : (length p.data_string_pool < 2 ^ 32) × All IsText p.data_string_pool
    pub data_entries : (length p.data_entries < 2 ^ 32) × All EntryFits p.data_entries
