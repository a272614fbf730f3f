-- ===== src/Tests/Files.antt =====
-- A program and its file.
use basset_lang.Prelude.{zero, suc, ℕ, ℤ, pos, negsuc, List, [], ◌∷◌}
use basset_lang.Bytecode.{Op}
use basset_lang.Program.{var_string, CompiledProgram, data_numeric}
use basset_lang.BytecodeFile.{DoubleBytes}
use basset_lang.Tests.Hosts.{integers}
use basset_lang.Tests.Runs.{ins}

abbrev bytes_of : ℤ → List ℕ
bytes_of (pos n) = n ∷ 0 ∷ 0 ∷ 0 ∷ 0 ∷ 0 ∷ 0 ∷ 0 ∷ []
bytes_of (negsuc n) = n ∷ 1 ∷ 0 ∷ 0 ∷ 0 ∷ 0 ∷ 0 ∷ 0 ∷ []

abbrev from_bytes : List ℕ → ℤ
from_bytes (n ∷ zero ∷ rest) = pos n
from_bytes (n ∷ suc s ∷ rest) = negsuc n
from_bytes rest = pos 0

abbrev doubles : DoubleBytes integers
doubles = record { to_bytes = bytes_of; of_bytes = from_bytes }

-- 10 A$ = "HI": END, with a number to READ
abbrev greeting : CompiledProgram integers
greeting = record {
  code = ins Op.str_push 0 ∷ ins Op.str_pop_var 0 ∷ ins Op.end 0 ∷ [];
  const_pool = pos 9 ∷ [];
  string_pool = (72 ∷ 73 ∷ []) ∷ [];
  data_numeric_pool = pos 7 ∷ [];
  data_string_pool = [];
  data_entries = record { type = data_numeric; index = 0 } ∷ [];
  var_table =
      record { name = 65 ∷ 36 ∷ []; slot = 0; type = var_string; array_dim1 = 0; array_dim2 = 0 }
      ∷ [];
  line_map = record { line_number = 10; pc_offset = 0 } ∷ [];
}
