-- ===== src/Vm/State.antt =====
-- src/value.h and src/vm.h: the values of the expression stack and the state of the machine.
-- `VMState` is a record of parts, so that an operation is a function of the parts that it uses.
-- A stack is a list, its top first, beside its allocated capacity. `break_flag` is never read.
use basset_lang.Prelude.{ℕ, ℤ, Bool, String, Option, List}
use basset_lang.Host.{Host, Str}
use basset_lang.Program.{VarType, CompiledProgram}

pub data Value (h : Host) : Type 0 where
  number : h.Double → Value h
  string : Str → Value h

pub record ForLoopState (h : Host) : Type 0 where
  pub var_slot : ℕ
  pub limit : h.Double
  pub step : h.Double
  pub loop_start_pc : ℕ

-- What the machine writes to stderr.
pub data Diagnostic : Type 0 where
  error : String → Diagnostic
  next_mismatch : Str → Str → Diagnostic
  warning_invalid_channel : ℤ → Diagnostic
  warning_channel_not_open : ℕ → Diagnostic

-- Control: the program counter, the three stacks and the error handling.
pub record Cpu (h : Host) : Type 0 where
  pub pc : ℕ
  pub running : Bool
  pub stack : List (Value h)
  pub stack_capacity : ℕ
  pub call_stack : List ℕ
  pub call_capacity : ℕ
  pub for_stack : List (ForLoopState h)
  pub for_capacity : ℕ
  pub trap_line : ℕ
  pub trap_enabled : Bool
  pub trap_triggered : Bool
  pub error_code : ℕ
  pub diagnostics : List Diagnostic

-- The union `u` of an array, with the pointer that may be null. No string of an array is null: every
-- cell is filled where the array is allocated.
pub data Cells (h : Host) : Type 0 where
  null : Cells h
  numbers : List h.Double → Cells h
  strings : List Str → Cells h

pub record ArrayData (h : Host) : Type 0 where
  pub type : VarType
  pub dim1 : ℕ
  pub dim2 : ℕ
  pub is_string : Bool
  pub u : Cells h

-- Variables: three lists indexed by slot, whose length is `var_capacity`.
pub record Store (h : Host) : Type 0 where
  pub num_vars : List h.Double
  pub str_vars : List (Option Str)
  pub arrays : List (ArrayData h)

-- Files and the terminal. `channels` are channels 0 to 7.
pub record Channel (h : Host) : Type 0 where
  pub handle : Option h.File
  pub status : ℕ
  pub position : ℤ

pub record Printer : Type 0 where
  pub print_needs_newline : Bool
  pub print_last_char : ℕ
  pub print_after_tab : Bool
  pub print_channel : ℕ
  pub print_column : ℕ
  pub print_width : ℕ

pub record Random (h : Host) : Type 0 where
  pub rnd_seed : ℕ
  pub last_rnd : h.Double

-- The rest of the input line that is still to be read; `none` is `input_available == 0`.
abbrev pub Input : Type 0
Input = Option Str

pub record Vm (h : Host) : Type 0 where
  pub cpu : Cpu h
  pub store : Store h
  pub channels : List (Channel h)
  pub printer : Printer
  pub random : Random h
  pub input : Input
  pub deg_mode : Bool
  pub memory : ℕ → ℕ
  pub data_pointer : ℕ
  pub world : h.World
  pub program : CompiledProgram h
