-- ===== src/Tests/Runs.antt =====
-- A program, and runs of it.
use basset_lang.Prelude.{ℕ, suc, pos, List, [], ◌∷◌}
use basset_lang.Bytecode.{Op, Instruction}
use basset_lang.Program.{var_array_1d, var_numeric, CompiledProgram, data_numeric}
use basset_lang.Tests.Hosts.{integers}

abbrev pub ins : Op → ℕ → Instruction
ins op n = record { opcode = op; operand = n; flags = 0 }

-- 10 DIM A(2): FOR I=0 TO 1: READ A(I): NEXT I: GOSUB 20: END, and 20 PRINT A(1): RETURN
abbrev pub sample : CompiledProgram integers
sample = record {
  code =
      ins Op.push_const 2
      ∷ ins Op.dim_1d 0
      ∷ ins Op.push_const 0
      ∷ ins Op.push_const 1
      ∷ ins Op.push_const 1
      ∷ ins Op.for_init 1
      ∷ ins Op.push_var 1
      ∷ ins Op.data_read_num 2
      ∷ ins Op.push_var 2
      ∷ ins Op.array_set_1d 0
      ∷ ins Op.for_next 1
      ∷ ins Op.gosub 13
      ∷ ins Op.end 0
      ∷ ins Op.push_const 1
      ∷ ins Op.array_get_1d 0
      ∷ ins Op.print_num 0
      ∷ ins Op.return 0
      ∷ [];
  const_pool = pos 0 ∷ pos 1 ∷ pos 2 ∷ [];
  string_pool = [];
  data_numeric_pool = pos 7 ∷ pos 8 ∷ [];
  data_string_pool = [];
  data_entries =
      record { type = data_numeric; index = 0 } ∷ record { type = data_numeric; index = 1 } ∷ [];
  var_table =
      record { name = 65 ∷ []; slot = 0; type = var_array_1d; array_dim1 = 2; array_dim2 = 0 }
      ∷ record { name = 73 ∷ []; slot = 1; type = var_numeric; array_dim1 = 0; array_dim2 = 0 }
      ∷ record { name = 84 ∷ []; slot = 2; type = var_numeric; array_dim1 = 0; array_dim2 = 0 }
      ∷ [];
  line_map =
      record { line_number = 10; pc_offset = 0 } ∷ record { line_number = 20; pc_offset = 13 } ∷ [];
}

-- A predicate on the instructions and their places, checked along the code.
abbrev Everywhere : (ℕ → Instruction → Type 0) → List Instruction → Type 0
Everywhere P [] = Unit
Everywhere P (i ∷ code) = P 0 i × Everywhere (λ pc. P (suc pc)) code
