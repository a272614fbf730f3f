-- ===== src/Program.antt =====
-- src/compiler.h: the compiled program, which the compiler fills and the virtual machine reads.
-- A pool with its count and its capacity is a list.
use basset_lang.Prelude.{ℕ, List}
use basset_lang.Host.{Host, Str}
use basset_lang.Bytecode.{Instruction}

-- The `enum` holds any other number that a file gives.
pub data VarType : Type 0 where
  var_numeric var_string var_array_1d var_array_2d : VarType
  var_other : ℕ → VarType

pub record VariableInfo : Type 0 where
  pub name : Str
  pub slot : ℕ
  pub type : VarType
  pub array_dim1 : ℕ
  pub array_dim2 : ℕ

pub record LineMapping : Type 0 where
  pub line_number : ℕ
  pub pc_offset : ℕ

-- A file may hold any byte as the type of an entry.
pub data DataType : Type 0 where
  data_numeric data_string data_null : DataType
  data_other : ℕ → DataType

-- The union of `numeric_idx` and `string_idx` is one index.
pub record DataEntry : Type 0 where
  pub type : DataType
  pub index : ℕ

pub record CompiledProgram (h : Host) : Type 0 where
  pub code : List Instruction
  pub const_pool : List h.Double
  pub string_pool : List Str
  pub data_numeric_pool : List h.Double
  pub data_string_pool : List Str
  pub data_entries : List DataEntry
  pub var_table : List VariableInfo
  pub line_map : List LineMapping
