-- ===== src/Compiler/Fixups.antt =====
-- The resolution of jumps of src/compiler.c.
use mathlib.Core.Path.{subst}
use basset_lang.Prelude.{
  ℕ, ◌%◌, ◌^◌, ◌<◌, ◌≡◌, ◌≢◌, refl, sym, ◌∙◌, ℤ, pos, negsuc, true, false, inl, inr, ◌⊎◌, Option,
  none, some, List, [], ◌∷◌, length, get_elem?, get_elem?-some, set, store_at-some,
  get_elem?-set_self, get_elem?-set_ne, length-set, All, Ensures, Ensures-bind, ◌>>=◌,
}
use basset_lang.Host.{Host}
use basset_lang.Bytecode.{Instruction}
use basset_lang.Program.{LineMapping}
use basset_lang.LineMap.{find_line_offset}
use basset_lang.Compiler.{JumpFixup, CompilerState, patch, resolve, compiler_resolve_jumps}

-- The instruction of the fixup jumps to the line of the fixup.
abbrev pub IsPatched : List LineMapping → List Instruction → JumpFixup → Type 0
IsPatched map code f =
    (inst : Instruction) × (offset : ℕ) × (get_elem? code f.instruction_offset ≡ some inst)
    × (find_line_offset map f.target_line ≡ pos offset)
    × (inst.operand ≡ offset % 2 ^ 16)

-- No two fixups are of one instruction, and every one is of an instruction of the code.
abbrev pub AreApart : ℕ → List JumpFixup → Type 0
AreApart n [] = Unit
AreApart n (f ∷ fixups) =
    (f.instruction_offset < n)
    × All (λ g. f.instruction_offset ≢ g.instruction_offset) fixups
    × AreApart n fixups

-- What the loop leaves of the code, and whether a line is undefined.
record Resolved (map : List LineMapping) (fixups : List JumpFixup) (code : List Instruction)
    (r : List Instruction × Option ℕ) : Type 0 where
  same_length : length r.0 ≡ length code
  others :
      (at : ℕ) → All (λ g. at ≢ g.instruction_offset) fixups → get_elem? r.0 at ≡ get_elem? code at
  outcome :
      ((r.1 ≡ none) × All (IsPatched map r.0) fixups)
      ⊎ ((line : ℕ) × (n : ℕ) × (r.1 ≡ some line) × (find_line_offset map line ≡ negsuc n))

abbrev pub patched : List Instruction → ℕ → ℕ → Instruction → List Instruction
patched code at offset inst = set code at (record inst { operand = offset % 2 ^ 16 })

pub patch-some :
    (code : List Instruction) (at offset : ℕ) (inst : Instruction)
    → at < length code
    → get_elem? code at ≡ some inst
    → patch code at offset ≡ some (patched code at offset inst)
unfolding patch
patch-some code at offset inst inside e =
    rw e (store_at-some code at (record inst { operand = offset % 2 ^ 16 }) inside)

-- One fixup that is resolved, before those that follow.
Resolved-cons :
    (map : List LineMapping) (f : JumpFixup) (fixups : List JumpFixup) (code : List Instruction)
    → (offset : ℕ) (inst : Instruction) → (r : List Instruction × Option ℕ)
    → f.instruction_offset < length code
    → All (λ g. f.instruction_offset ≢ g.instruction_offset) fixups
    → find_line_offset map f.target_line ≡ pos offset
    → Resolved map fixups (patched code f.instruction_offset offset inst) r
    → Resolved map (f ∷ fixups) code r
Resolved-cons map f fixups code offset inst r inside apart found rest =
    let at = f.instruction_offset in
    let new : Instruction = record inst { operand = offset % 2 ^ 16 } in
    let here : get_elem? r.0 at ≡ some new =
      rest.others at apart ∙ get_elem?-set_self code at new inside in
    record {
      same_length = rest.same_length ∙ length-set code at new;
      others =
          λ k away. rest.others k away.1 ∙ get_elem?-set_ne code at k new (λ e. away.0 (sym e));
      outcome = elim rest.outcome [
        | inl done ↦ inl (done.0, ((new, offset, here, found, refl), done.1))
        | inr failed ↦ inr failed
      ];
    }

Ensures-weaken {ℓ} :
    {A : Type ℓ} (P Q : A → Type 0) (m : Option A)
    → Ensures P m
    → ((a : A) → P a → Q a)
    → Ensures Q m
Ensures-weaken P Q none h k = absurd h
Ensures-weaken P Q (some a) h k = k a h

resolve-Resolved :
    (map : List LineMapping) (fixups : List JumpFixup) (code : List Instruction)
    → AreApart (length code) fixups
    → Ensures (Resolved map fixups code) (resolve map fixups code)
unfolding resolve
resolve-Resolved map [] code apart = record {
  same_length = refl;
  others = λ at away. refl;
  outcome = inl (refl, tt);
}
resolve-Resolved map (f ∷ fixups) code apart =
    by_offset (λ code'. resolve-Resolved map fixups code') (find_line_offset map f.target_line) refl
  where
    by_offset :
        ((code' : List Instruction)
          → AreApart (length code') fixups
          → Ensures (Resolved map fixups code') (resolve map fixups code'))
        → (z : ℤ) → find_line_offset map f.target_line ≡ z
        → Ensures (Resolved map (f ∷ fixups) code) (elim z [
          | negsuc _ ↦ some (code, some f.target_line)
          | pos offset ↦
              patch code f.instruction_offset offset >>= λ code'. resolve map fixups code'
        ])
    by_offset rest (negsuc n) e = record {
      same_length = refl;
      others = λ at away. refl;
      outcome = inr (f.target_line, n, refl, e);
    }
    by_offset rest (pos offset) e =
        let (inst, at) = get_elem?-some code f.instruction_offset apart.0 in
        let code' = patched code f.instruction_offset offset inst in
        let same : length code' ≡ length code = length-set code f.instruction_offset _ in
        rw (patch-some code f.instruction_offset offset inst apart.0 at) (
          Ensures-weaken (Resolved map fixups code') (Resolved map (f ∷ fixups) code)
            (resolve map fixups code')
            (rest code' (subst (λ n. AreApart n fixups) (sym same) apart.2))
            (λ r k. Resolved-cons map f fixups code offset inst r apart.0 apart.1 e k))

module _ {h : Host} where
  -- Fixups of different instructions of the code: the resolution patches every one of them with the
  -- offset of its line, in 16 bits, or reports an error, which it does only if some line is not found.
  -- The code keeps its length.
  pub compiler_resolve_jumps-IsPatched :
      (cs : CompilerState h)
      → cs.has_error ≡ false
      → AreApart (length cs.program.code) cs.jump_fixups
      → Ensures
          (λ done.
            (length done.program.code ≡ length cs.program.code)
            × (((done.has_error ≡ false)
                  × All (IsPatched cs.program.line_map done.program.code) cs.jump_fixups)
                ⊎ ((done.has_error ≡ true)
                    × ((line : ℕ) × (n : ℕ) × (done.undefined_line ≡ some line)
                        × (find_line_offset cs.program.line_map line ≡ negsuc n)))))
          (compiler_resolve_jumps cs)
  unfolding compiler_resolve_jumps
  compiler_resolve_jumps-IsPatched cs fine apart =
      Ensures-bind (Resolved cs.program.line_map cs.jump_fixups cs.program.code) _
        (resolve cs.program.line_map cs.jump_fixups cs.program.code) _
        (resolve-Resolved cs.program.line_map cs.jump_fixups cs.program.code apart)
        (λ r k. elim k.outcome [
          | inl (e, done) ↦ rw e (k.same_length, inl (fine, done))
          | inr (line, n, e, lost) ↦ rw e (k.same_length, inr (refl, (line, n, refl, lost)))
        ])
