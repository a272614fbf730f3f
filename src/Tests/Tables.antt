-- ===== src/Tests/Tables.antt =====
-- The tables of the compiler at concrete inputs.
use basset_lang.Prelude.{
  ℕ, ◌≤◌, ◌≡◌, refl, arith, ℤ, pos, negsuc, true, false, none, some, [], ◌∷◌, ◌⊎◌, length,
  get_elem?, All, Ensures,
}
use basset_lang.Host.{Str}
use basset_lang.Program.{var_string}
use basset_lang.Compiler.{
  CompilerState, compiler_add_string, compiler_add_const, compiler_add_variable, count_class,
  string_var, array_var, numeric_var, jump_gosub, jump_absolute, compiler_resolve_jumps,
}
use basset_lang.LineMap.{find_line_offset}
use basset_lang.Compiler.Fixups.{IsPatched, compiler_resolve_jumps-IsPatched}
use basset_lang.Compiler.Pools.{compiler_add_string-get_elem?, compiler_add_const-get_elem?}
use basset_lang.Compiler.Symbols.{WithinLimits, compiler_add_variable-WithinLimits}
use basset_lang.Tests.Hosts.{integers}
use basset_lang.Tests.Runs.{sample}

abbrev hello : Str
hello = 72 ∷ 73 ∷ []

abbrev compiling : CompilerState integers
compiling = record {
  program = record sample { string_pool = (65 ∷ []) ∷ [] };
  jump_fixups = [];
  current_line = 20;
  has_error = false;
  undefined_line = none;
}

compiler_add_string-get_elem?_example :
    (get_elem?
        (compiler_add_string hello compiling).1.program.string_pool
        (compiler_add_string hello compiling).0
      ≡ some hello)
    × (get_elem? (compiler_add_string hello compiling).1.program.string_pool 0 ≡ some (65 ∷ []))
compiler_add_string-get_elem?_example =
    compiler_add_string-get_elem? hello (65 ∷ []) 0 compiling (omega arith) refl

compiler_add_const-get_elem?_example :
    ((found : ℤ) × (get_elem?
          (compiler_add_const (pos 9) compiling).1.program.const_pool
          (compiler_add_const (pos 9) compiling).0
        ≡ some found)
      × ((found ≡ pos 9) ⊎ (integers.eq found (pos 9) ≡ true)))
    × (get_elem? (compiler_add_const (pos 9) compiling).1.program.const_pool 1 ≡ some (pos 1))
compiler_add_const-get_elem?_example =
    compiler_add_const-get_elem? (pos 9) (pos 1) 1 compiling (omega arith) refl

sample-WithinLimits : WithinLimits sample.var_table
unfolding count_class
sample-WithinLimits string_var = omega arith
sample-WithinLimits array_var = omega arith
sample-WithinLimits numeric_var = omega arith

compiler_add_variable-WithinLimits_example :
    WithinLimits (compiler_add_variable hello var_string compiling).1.program.var_table
    × (length (compiler_add_variable hello var_string compiling).1.program.var_table ≤ 320)
compiler_add_variable-WithinLimits_example =
    compiler_add_variable-WithinLimits hello var_string compiling sample-WithinLimits

abbrev with_jumps : CompilerState integers
with_jumps = record compiling {
  jump_fixups =
      record { instruction_offset = 11; target_line = 20; type = jump_gosub }
      ∷ record { instruction_offset = 12; target_line = 10; type = jump_absolute }
      ∷ [];
}

compiler_resolve_jumps-IsPatched_example :
    Ensures
      (λ done.
        (length done.program.code ≡ length sample.code)
        × (((done.has_error ≡ false)
              × All (IsPatched sample.line_map done.program.code) with_jumps.jump_fixups)
            ⊎ ((done.has_error ≡ true)
                × ((line : ℕ) × (n : ℕ) × (done.undefined_line ≡ some line)
                    × (find_line_offset sample.line_map line ≡ negsuc n)))))
      (compiler_resolve_jumps with_jumps)
compiler_resolve_jumps-IsPatched_example =
    compiler_resolve_jumps-IsPatched with_jumps refl
      (omega arith, ((λ e. absurd (omega arith)), tt), (omega arith, tt, tt))
