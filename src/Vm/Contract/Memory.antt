-- ===== src/Vm/Contract/Memory.antt =====
-- POKE and PEEK on the simulated memory of src/vm.c.
use basset_lang.Prelude.{ℕ, ◌==◌, if◌then◌else◌}
use basset_lang.Host.{Host}

-- What the memory holds at `b` when the byte `v` has been written at `a`.
abbrev pub after_poke : (ℕ → ℕ) → ℕ → ℕ → ℕ → ℕ
after_poke memory a v b = if b == a then v else memory b
