-- ===== src/Compiler/Soundness/Steps.antt =====
-- The shared steps of src/compiler.c keep the invariant of the compiler.
use basset_lang.Prelude.{
  ℕ, ◌+◌, ◌-◌, ◌%◌, ◌^◌, ◌≤◌, ◌≡◌, refl, ◌∙◌, arith, ℤ, pos, negsuc, Option, none, some,
  Option-cases, inl, inr, List, [], ◌∷◌, ◌++◌, length, length-append, ◌>>=◌,
}
use basset_lang.Host.{Host, Str}
use basset_lang.Bytecode.{Op, Instruction}
use basset_lang.Program.{VarType}
use basset_lang.LineMap.{find_line_offset}
use basset_lang.Compiler.{
  CompilerState, JumpFixup, JumpType, compiler_emit, compiler_add_variable, compiler_add_const,
  compiler_add_string, compiler_add_jump_fixup, compiler_find_variable, first_index, same_text,
  patch,
}
use basset_lang.Compiler.Tree.{ParseNode, null, node, Children, child, value_of, name_of}
use basset_lang.Compiler.Emit.{
  Step, ◌>=>◌, skip, emit, push_number, push_text, slot_of, emit_on, jump_to_known, emit_jump,
  patch_here, deref, with_child, with_name, jump_to,
}
use basset_lang.Compiler.Fixups.{AreApart}
use basset_lang.Compiler.Pools.{add_string_new, add_string_known, add_const_new, add_const_known}
use basset_lang.Compiler.Symbols.{add_cases, extended}
use basset_lang.Compiler.Soundness.{
  IsSound, After, Keeps, After-bind, seq, done, stuck, AreApart-grow, AreApart-last, length-patch,
}

module _ {h : Host} where
  -- A change of the tables and pools.
  pub same_code :
      (cs cs' : CompilerState h)
      → cs'.program.code ≡ cs.program.code
      → cs'.jump_fixups ≡ cs.jump_fixups
      → cs'.has_error ≡ cs.has_error
      → IsSound cs
      → IsSound cs' × (length cs.program.code ≤ length cs'.program.code)
  same_code cs cs' code fixups error s =
      (record { fine = error ∙ s.fine; apart = rw (code, fixups) s.apart }, rw code (omega arith))

  pub compiler_add_variable-IsSound :
      (name : Str) (type : VarType) (cs : CompilerState h)
      → IsSound cs
      → IsSound (compiler_add_variable name type cs).1
        × (length cs.program.code ≤ length (compiler_add_variable name type cs).1.program.code)
  unfolding extended
  compiler_add_variable-IsSound name type cs s =
      let goal = λ (r : ℤ × CompilerState h).
        IsSound r.1 × (length cs.program.code ≤ length r.1.program.code) in
      add_cases goal name type cs (λ slot e. (s, omega arith)) (s, omega arith)
        (λ n e room. same_code cs (extended name type cs) refl refl refl s)

  compiler_add_const-IsSound :
      (value : h.Double) (cs : CompilerState h)
      → IsSound cs
      → IsSound (compiler_add_const value cs).1
        × (length cs.program.code ≤ length (compiler_add_const value cs).1.program.code)
  compiler_add_const-IsSound value cs s =
      elim (Option-cases (first_index (λ x. h.eq x value) cs.program.const_pool 0)) [
        | inl e ↦ rw (add_const_new value cs e) (same_code cs _ refl refl refl s)
        | inr (j, e) ↦ rw (add_const_known value cs j e) (s, omega arith)
      ]

  pub compiler_add_string-IsSound :
      (str : Str) (cs : CompilerState h)
      → IsSound cs
      → IsSound (compiler_add_string str cs).1
        × (length cs.program.code ≤ length (compiler_add_string str cs).1.program.code)
  compiler_add_string-IsSound str cs s =
      elim (Option-cases (first_index (λ x. same_text x str) cs.program.string_pool 0)) [
        | inl e ↦ rw (add_string_new str cs e) (same_code cs _ refl refl refl s)
        | inr (j, e) ↦ rw (add_string_known str cs j e) (s, omega arith)
      ]

  slot_of-IsSound :
      (name : Str) (type : VarType) (cs : CompilerState h)
      → IsSound cs
      → IsSound (slot_of name type cs).1
        × (length cs.program.code ≤ length (slot_of name type cs).1.program.code)
  unfolding slot_of
  slot_of-IsSound name type cs s = go (compiler_find_variable cs name)
    where
      go :
          (r : ℤ)
          → let found : ℤ × CompilerState h = elim r [
            | pos slot ↦ (pos slot, cs)
            | negsuc n ↦ compiler_add_variable name type cs
          ] in
            IsSound found.1 × (length cs.program.code ≤ length found.1.program.code)
      go (pos slot) = (s, omega arith)
      go (negsuc n) = compiler_add_variable-IsSound name type cs s

  length-emit :
      (op : Op) (n : ℕ) (cs : CompilerState h)
      → length (compiler_emit op n cs).program.code ≡ length cs.program.code + 1
  unfolding compiler_emit
  length-emit op n cs = length-append cs.program.code _

  emit_fine :
      (op : Op) (n : ℕ) (cs : CompilerState h) → (compiler_emit op n cs).has_error ≡ cs.has_error
  unfolding compiler_emit
  emit_fine op n cs = refl

  emit_fixups :
      (op : Op) (n : ℕ) (cs : CompilerState h)
      → (compiler_emit op n cs).jump_fixups ≡ cs.jump_fixups
  unfolding compiler_emit
  emit_fixups op n cs = refl

  pub compiler_emit-IsSound :
      (op : Op) (n : ℕ) (cs : CompilerState h)
      → IsSound cs
      → IsSound (compiler_emit op n cs)
        × (length cs.program.code ≤ length (compiler_emit op n cs).program.code)
  compiler_emit-IsSound op n cs s =
      let size = length-emit op n cs in
      let k = length cs.program.code in
      let grown : k + 1 ≤ 2 ^ 32 → AreApart (k + 1) cs.jump_fixups =
        λ le. AreApart-grow k (k + 1) cs.jump_fixups (omega arith) (s.apart (omega arith)) in
      (
        record { fine = emit_fine op n cs ∙ s.fine; apart = rw (size, emit_fixups op n cs) grown },
        omega arith,
      )

  pub emits : (op : Op) (n : ℕ) → Keeps h (emit op n)
  unfolding emit
  emits op n cs s = compiler_emit-IsSound op n cs s

  pub emit_then : (op : Op) (n : ℕ) (g : Step h) → Keeps h g → Keeps h (emit op n >=> g)
  emit_then op n g k = seq (emit op n) g (emits op n) k

  -- A table first, and then an instruction.
  pub then_emit :
      (op : Op) (n : ℕ) (k : ℕ) (cs : CompilerState h)
      → IsSound cs × (k ≤ length cs.program.code)
      → IsSound (compiler_emit op n cs) × (k ≤ length (compiler_emit op n cs).program.code)
  then_emit op n k cs (s, le) = let (s', le') = compiler_emit-IsSound op n cs s in (s', omega arith)

  pub push_number_keeps : (value : h.Double) → Keeps h (push_number value)
  unfolding push_number
  push_number_keeps value cs s = then_emit _ _ _ _ (compiler_add_const-IsSound value cs s)

  pub push_text_keeps : (str : Str) → Keeps h (push_text str)
  unfolding push_text
  push_text_keeps str cs s = then_emit _ _ _ _ (compiler_add_string-IsSound str cs s)

  pub emit_on_keeps : (op : Op) (name : Str) (type : VarType) → Keeps h (emit_on op name type)
  unfolding emit_on
  emit_on_keeps op name type cs s = then_emit _ _ _ _ (slot_of-IsSound name type cs s)

  -- A step that depends on the slot.
  pub with_slot_keeps :
      (name : Str) (type : VarType) (cs : CompilerState h) (f : ℤ → Step h)
      → IsSound cs
      → ((slot : ℤ) → Keeps h (f slot))
      → After (length cs.program.code) (f (slot_of name type cs).0 (slot_of name type cs).1)
  with_slot_keeps name type cs f s k =
      let slot = slot_of name type cs in
      After-bind (length cs.program.code) (some slot.1) (f slot.0) (slot_of-IsSound name type cs s)
        (k slot.0)

  -- A jump to a line that is not yet compiled has a fixup of its own.
  jump_to_known_keeps :
      (op : Op) (line : ℕ) (type : JumpType) (r : ℤ) → Keeps h (jump_to_known op line type r)
  unfolding jump_to_known compiler_add_jump_fixup
  jump_to_known_keeps op line type (pos offset) cs s = compiler_emit-IsSound op _ cs s
  jump_to_known_keeps op line type (negsuc n) cs s =
      let k = length cs.program.code in
      let cs' = compiler_emit op 0xffff cs in
      let size : length cs'.program.code ≡ k + 1 = length-emit op 0xffff cs in
      let f : JumpFixup = record {
        instruction_offset = (k + 1 - 1) % 2 ^ 32;
        target_line = line;
        type = type;
      } in
      let grown : k + 1 ≤ 2 ^ 32 → AreApart (k + 1) (cs.jump_fixups ++ (f ∷ [])) =
        λ le. AreApart-last k cs.jump_fixups f (omega arith) (s.apart (omega arith)) in
      (
        record {
          fine = emit_fine op 0xffff cs ∙ s.fine;
          apart = rw (size, emit_fixups op 0xffff cs) grown;
        },
        omega arith,
      )

  pub emit_jump_keeps : (op : Op) (line : ℕ) (type : JumpType) → Keeps h (emit_jump op line type)
  unfolding emit_jump
  emit_jump_keeps op line type cs =
      jump_to_known_keeps op line type (find_line_offset cs.program.line_map line) cs

  pub jump_to_keeps : (op : Op) (type : JumpType) (n : ParseNode h) → Keeps h (jump_to op type n)
  unfolding jump_to value_of
  jump_to_keeps op type null cs s = tt
  jump_to_keeps op type (node t token text value line kids) cs s =
      emit_jump_keeps op (h.to_u16 value) type cs s

  pub deref_keeps : (n : ParseNode h) (f : Step h) → Keeps h f → Keeps h (deref n f)
  unfolding deref
  deref_keeps null f k = stuck
  deref_keeps (node t token text value line kids) f k = k

  pub with_child_keeps :
      (kids : Children h) (n : ℕ) (f : ParseNode h → Step h)
      → ((c : ParseNode h) → Keeps h (f c))
      → Keeps h (with_child kids n f)
  unfolding with_child
  with_child_keeps kids n f k cs s = go (child kids n)
    where
      go : (c : Option (ParseNode h)) → After (length cs.program.code) (c >>= λ n. f n cs)
      go none = tt
      go (some c) = k c cs s

  pub with_name_keeps :
      (n : ParseNode h) (f : Str → Step h)
      → ((name : Str) → Keeps h (f name))
      → Keeps h (with_name n f)
  unfolding with_name
  with_name_keeps n f k = go (name_of n)
    where
      go :
          (name : Option Str)
          → Keeps h (elim name as (λ _. Step h) [ none ↦ skip | some name ↦ f name ])
      go none = done
      go (some name) = k name

  pub patch_here_keeps : (at : ℕ) → Keeps h (patch_here at)
  unfolding patch_here
  patch_here_keeps at cs s = go (patch cs.program.code at (length cs.program.code)) refl
    where
      go :
          (r : Option (List Instruction))
          → patch cs.program.code at (length cs.program.code) ≡ r
          → After
              (length cs.program.code)
              (r >>= λ code. some (record cs { program = record cs.program { code = code } }))
      go none e = tt
      go (some code') e =
          let size = length-patch cs.program.code code' at (length cs.program.code) e in
          (record { fine = s.fine; apart = rw size s.apart }, rw size (omega arith))
