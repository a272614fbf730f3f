-- ===== src/Vm/Reads.antt =====
-- src/vm.c, "DATA/READ Operations".
use basset_lang.Prelude.{ℕ, ◌+◌, Option, none, some, [], get_elem?, store_at, ◌>>=◌, if◌then◌else◌}
use basset_lang.Host.{Host, Str}
use basset_lang.Program.{
  DataType, data_numeric, data_string, data_null, data_other, CompiledProgram,
}
use basset_lang.Vm.State.{Cpu, Store}
use basset_lang.Vm.Stack.{num, next, vm_error, err_out_of_data, err_type_mismatch}

module _ {h : Host} where
  unfoldable pub out_of_data : Cpu h → Cpu h
  out_of_data c₀ =
      let c₁ = vm_error err_out_of_data "OUT OF DATA" c₀ in
      if c₁.trap_triggered then c₁ else next c₁

  -- The number or the string of an entry; `some none` is a type that READ does not know.
  unfoldable pub numeric_item : CompiledProgram h → DataType → ℕ → Option (Option h.Double)
  numeric_item p data_string i = do s ← get_elem? p.data_string_pool i; some (some (h.atof s))
  numeric_item p data_numeric i = do d ← get_elem? p.data_numeric_pool i; some (some d)
  numeric_item p data_null i = some (some (num h 0))
  numeric_item p (data_other _) i = some none

  unfoldable pub string_item : CompiledProgram h → DataType → ℕ → Option (Option Str)
  string_item p data_string i = do s ← get_elem? p.data_string_pool i; some (some s)
  string_item p data_numeric i = do d ← get_elem? p.data_numeric_pool i; some (some (h.format_g d))
  string_item p data_null i = some (some [])
  string_item p (data_other _) i = some none

  -- The new state of the processor and of the variables, and the data pointer.
  unfoldable pub op_data_read_num :
      CompiledProgram h → ℕ → ℕ → Store h → Cpu h → Option (Cpu h × Store h × ℕ)
  unfolding out_of_data numeric_item
  op_data_read_num p operand pointer s c = elim (get_elem? p.data_entries pointer) [
    | none ↦ some (out_of_data c, s, pointer)
    | some entry ↦ do
      item ← numeric_item p entry.type entry.index
      elim item [
        | none ↦ some (next (vm_error err_type_mismatch "TYPE MISMATCH IN DATA" c), s, pointer + 1)
        | some value ↦ do
          num_vars ← store_at s.num_vars operand value
          some (next c, record s { num_vars = num_vars }, pointer + 1)
      ]
  ]

  unfoldable pub op_data_read_str :
      CompiledProgram h → ℕ → ℕ → Store h → Cpu h → Option (Cpu h × Store h × ℕ)
  unfolding out_of_data string_item
  op_data_read_str p operand pointer s c = elim (get_elem? p.data_entries pointer) [
    | none ↦ some (out_of_data c, s, pointer)
    | some entry ↦ do
      item ← string_item p entry.type entry.index
      elim item [
        | none ↦ some (vm_error err_type_mismatch "TYPE MISMATCH IN DATA" c, s, pointer + 1)
        | some value ↦ do
          str_vars ← store_at s.str_vars operand (some value)
          some (next c, record s { str_vars = str_vars }, pointer + 1)
      ]
  ]
