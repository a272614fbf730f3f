-- ===== src/Compiler/Soundness.antt =====
-- The invariant of the compiler of src/compiler.c that makes its jumps sound, and the composition of steps
-- that keep it.
pub mod Steps
pub mod Expressions
pub mod Jumps
pub mod Storage
pub mod Items
pub mod Loops
pub mod Output
pub mod Statements
pub mod Program
use basset_lang.Prelude.{
  ℕ, ◌+◌, ◌-◌, ◌%◌, ◌^◌, ◌<◌, ◌≤◌, ◌≡◌, ◌≢◌, refl, sym, ap, ◌∙◌, arith, ℤ, pos, negsuc, Bool, true,
  false, ltb, Option, none, some, Option-cases, Bool-cases, inl, inr, List, [], ◌∷◌, ◌++◌, length,
  length-append, length-set, get_elem?, some_in_range, All, Ensures, if◌then◌else◌, ◌>>=◌,
}
use basset_lang.Host.{Host, Str}
use basset_lang.Bytecode.{Op, Instruction}
use basset_lang.Program.{VarType}
use basset_lang.LineMap.{find_line_offset}
use basset_lang.Compiler.{
  CompilerState, JumpFixup, JumpType, compiler_emit, compiler_add_variable, compiler_add_const,
  compiler_add_string, compiler_add_jump_fixup, compiler_find_variable, first_index, same_text,
  patch,
}
use basset_lang.Compiler.Tree.{ParseNode, null, node, Children, count, child, value_of, name_of}
use basset_lang.Compiler.Emit.{
  Step, ◌>=>◌, skip, undefined, emit, require, push_number, push_text, slot_of, emit_on,
  jump_to_known, emit_jump, patch_here, deref, with_child, with_name, jump_to, to_u16,
}
use basset_lang.Compiler.Fixups.{AreApart, patched, patch-some}
use basset_lang.Compiler.Pools.{add_string_new, add_string_known, add_const_new, add_const_known}
use basset_lang.Compiler.Execution.{some_injective}
use basset_lang.Compiler.Symbols.{add_cases, extended}

-- Fixups of an instruction each, as long as an offset has 32 bits; and no error so far.
pub record IsSound {h : Host} (cs : CompilerState h) : Type 0 where
  pub fine : cs.has_error ≡ false
  pub apart : length cs.program.code ≤ 2 ^ 32 → AreApart (length cs.program.code) cs.jump_fixups

pub AreApart-grow : (m n : ℕ) (fs : List JumpFixup) → m ≤ n → AreApart m fs → AreApart n fs
AreApart-grow m n [] le h = tt
AreApart-grow m n (f ∷ fs) le (inside, apart, rest) =
    (omega arith, apart, AreApart-grow m n fs le rest)

-- A fixup of the instruction at the end.
All-append :
    (P : JumpFixup → Type 0) (fs : List JumpFixup) (f : JumpFixup)
    → All P fs
    → P f
    → All P (fs ++ (f ∷ []))
All-append P [] f h p = (p, tt)
All-append P (g ∷ fs) f (q, h) p = (q, All-append P fs f h p)

pub AreApart-last :
    (n : ℕ) (fs : List JumpFixup) (f : JumpFixup)
    → f.instruction_offset ≡ n
    → AreApart n fs
    → AreApart (n + 1) (fs ++ (f ∷ []))
AreApart-last n [] f e h = (omega arith, tt, tt)
AreApart-last n (g ∷ fs) f e (inside, apart, rest) = (
  omega arith,
  All-append (λ k. g.instruction_offset ≢ k.instruction_offset) fs f apart
      (λ q. absurd (omega arith)),
  AreApart-last n fs f e rest,
)

patch_outside :
    (code : List Instruction) (at offset : ℕ)
    → get_elem? code at ≡ none
    → patch code at offset ≡ none
unfolding patch
patch_outside code at offset e = rw e refl

-- A patch changes no length.
pub length-patch :
    (code code' : List Instruction) (at offset : ℕ)
    → patch code at offset ≡ some code'
    → length code' ≡ length code
length-patch code code' at offset e = elim (Option-cases (get_elem? code at)) [
  | inl q ↦
      let r : patch code at offset ≡ none = patch_outside code at offset q in
      absurd (let t : none ≡ some code' = sym r ∙ e in cc)
  | inr (inst, q) ↦
      let inside : at < length code = some_in_range code at inst q in
      let new = patched code at offset inst in
      let r : new ≡ code' =
        some_injective _ _ (sym (patch-some code at offset inst inside q) ∙ e) in
      ap length (sym r) ∙ length-set code at (record inst { operand = offset % 2 ^ 16 })
]

-- What a step leaves: the invariant, and no less code. A step that is undefined leaves nothing.
abbrev pub After : {h : Host} → ℕ → Option (CompilerState h) → Type 0
After n none = Unit
After n (some cs) = IsSound cs × (n ≤ length cs.program.code)

abbrev pub Keeps : (h : Host) → Step h → Type 0
Keeps h f = (cs : CompilerState h) → IsSound cs → After (length cs.program.code) (f cs)

module _ {h : Host} where
  pub After-bind :
      (n : ℕ) (m : Option (CompilerState h)) (g : Step h)
      → After n m
      → Keeps h g
      → After n (m >>= g)
  After-bind n none g a k = tt
  After-bind n (some cs) g (s, le) k = After-le (length cs.program.code) n (g cs) le (k cs s)
    where
      After-le : (m n : ℕ) (r : Option (CompilerState h)) → n ≤ m → After m r → After n r
      After-le m n none le a = tt
      After-le m n (some cs) le (s, le') = (s, omega arith)

  -- Composition.
  pub seq : (f g : Step h) → Keeps h f → Keeps h g → Keeps h (f >=> g)
  seq f g kf kg cs s = After-bind (length cs.program.code) (f cs) g (kf cs s) kg

  pub done : Keeps h skip
  done cs s = (s, omega arith)

  pub stuck : Keeps h undefined
  stuck cs s = tt

  pub branch : (b : Bool) (f g : Step h) → Keeps h f → Keeps h g → Keeps h (if b then f else g)
  branch true f g kf kg = kf
  branch false f g kf kg = kg

  pub branch_at :
      (b : Bool) (f g : Step h) (cs : CompilerState h)
      → IsSound cs
      → Keeps h f
      → Keeps h g
      → After (length cs.program.code) (if b then f cs else g cs)
  branch_at true f g cs s kf kg = kf cs s
  branch_at false f g cs s kf kg = kg cs s

  pub required : (n : ℕ) (kids : Children h) (f : Step h) → Keeps h f → Keeps h (require n kids f)
  required n kids f kf cs s = go (ltb (count kids) n)
    where
      go : (b : Bool) → After (length cs.program.code) (if b then some cs else f cs)
      go true = (s, omega arith)
      go false = kf cs s
