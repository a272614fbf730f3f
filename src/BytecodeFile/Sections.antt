-- ===== src/BytecodeFile/Sections.antt =====
-- src/bytecode_file.c: `bytecode_file_save` and `bytecode_file_load`.
use basset_lang.Prelude.{
  ℕ, leb, ◌==◌, Bool, true, false, ◌&&◌, List, [], ◌∷◌, length, take, if◌then◌else◌,
}
use basset_lang.Host.{Host}
use basset_lang.Program.{CompiledProgram}
use basset_lang.BytecodeFile.{
  DoubleBytes, Result, done, failed, ◌>>>◌, put, get, write_string, read_string, write_section,
  read_section, read_owned_section, write_instruction, read_instruction, write_variable,
  read_variable, write_line, read_line, write_entry, read_entry, write_double, read_double,
}

-- The header: the magic "ABC", the version 1 and zero.
unfoldable pub write_header : List ℕ → List ℕ
write_header rest = 65 ∷ 66 ∷ 67 ∷ 0 ∷ put 2 1 (put 2 0 rest)

-- Three bytes of the magic and the version are tested.
unfoldable pub header_is_valid : ℕ → ℕ → ℕ → ℕ → Bool
header_is_valid a b c version = a == 65 && b == 66 && c == 67 && version == 1

unfoldable pub read_header : List ℕ → Result Bool
read_header s = get 1 s >>> λ a s₁. get 1 s₁ >>> λ b s₂. get 1 s₂ >>> λ c s₃. get 1 s₃ >>> λ nul s₄.
    get 2 s₄ >>> λ version s₅. get 2 s₅ >>> λ reserved s₆. done (header_is_valid a b c version) s₆

module _ {h : Host} where
  -- The bytes that are written where every write succeeds.
  unfoldable pub program_bytes : DoubleBytes h → CompiledProgram h → List ℕ
  program_bytes d p = write_header (
      write_section write_instruction p.code (
        write_section (write_double d) p.const_pool (
          write_section write_string p.string_pool (
            write_section write_variable p.var_table (
              write_section write_line p.line_map (
                write_section (write_double d) p.data_numeric_pool (
                  write_section write_string p.data_string_pool
                    (write_section write_entry p.data_entries []))))))))

  -- The result and the file, which has room for `space` bytes.
  unfoldable pub bytecode_file_save : DoubleBytes h → ℕ → CompiledProgram h → Bool × List ℕ
  bytecode_file_save d space p =
      let bytes = program_bytes d p in
      if leb (length bytes) space then (true, bytes) else (false, take space bytes)

  unfoldable pub read_sections : DoubleBytes h → ℕ → List ℕ → Result (CompiledProgram h)
  read_sections d upper s = read_section read_instruction s >>> λ code s₁.
      read_section (read_double d) s₁ >>> λ const_pool s₂.
      read_owned_section read_string s₂ >>> λ string_pool s₃.
      read_owned_section (read_variable upper) s₃ >>> λ var_table s₄.
      read_section read_line s₄ >>> λ line_map s₅.
      read_section (read_double d) s₅ >>> λ data_numeric_pool s₆.
      read_owned_section read_string s₆ >>> λ data_string_pool s₇.
      read_section read_entry s₇ >>> λ data_entries s₈.
      done
        (record {
          code = code;
          const_pool = const_pool;
          string_pool = string_pool;
          data_numeric_pool = data_numeric_pool;
          data_string_pool = data_string_pool;
          data_entries = data_entries;
          var_table = var_table;
          line_map = line_map;
        })
        s₈

  -- The program of a file, or a null pointer (`failed`).
  unfoldable pub bytecode_file_load : DoubleBytes h → ℕ → List ℕ → Result (CompiledProgram h)
  bytecode_file_load d upper file =
      read_header file >>> λ valid s. if valid then read_sections d upper s else failed
