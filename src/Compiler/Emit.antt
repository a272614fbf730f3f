-- ===== src/Compiler/Emit.antt =====
-- src/compiler.c: the steps that the statement compilers share. A step changes the state, or is
-- undefined.
use basset_lang.Prelude.{
  ℕ, ◌-◌, ◌%◌, ◌^◌, ℤ, pos, negsuc, ltb, Option, none, some, length, if◌then◌else◌, ◌>>=◌,
}
use basset_lang.Host.{Host, Str}
use basset_lang.Bytecode.{Op}
use basset_lang.Program.{VarType, var_numeric, var_string}
use basset_lang.LineMap.{find_line_offset}
use basset_lang.Vm.Execute.{has_dollar}
use basset_lang.Compiler.Tree.{ParseNode, null, node, Children, count, child, name_of, value_of}
use basset_lang.Compiler.{
  CompilerState, JumpType, compiler_find_variable, compiler_add_variable, compiler_add_const,
  compiler_add_string, compiler_emit, compiler_add_jump_fixup, patch,
}

abbrev pub Step : Host → Type 0
Step h = CompilerState h → Option (CompilerState h)

-- The conversion of an `int` to a `uint16_t`.
abbrev pub to_u16 : ℤ → ℕ
to_u16 (pos n) = n % 2 ^ 16
to_u16 (negsuc n) = 2 ^ 16 - 1 - n % 2 ^ 16

-- `get_var_type`
unfoldable pub get_var_type : Str → VarType
get_var_type name = if has_dollar name then var_string else var_numeric

module _ {h : Host} where
  infixr 6 ◌>=>◌
  abbrev pub ◌>=>◌ : Step h → Step h → Step h
  ◌>=>◌ f g cs = f cs >>= g

  abbrev pub skip : Step h
  skip cs = some cs

  abbrev pub undefined : Step h
  undefined cs = none

  unfoldable pub emit : Op → ℕ → Step h
  emit op operand cs = some (compiler_emit op operand cs)

  -- `if (stmt->child_count < n) return;`
  abbrev pub require : ℕ → Children h → Step h → Step h
  require n kids body cs = if ltb (count kids) n then some cs else body cs

  -- A constant of the pool, pushed.
  unfoldable pub push_number : h.Double → Step h
  push_number value cs =
      let (index, cs') = compiler_add_const value cs in some (compiler_emit Op.push_const index cs')

  unfoldable pub push_text : Str → Step h
  push_text str cs =
      let (index, cs') = compiler_add_string str cs in some (compiler_emit Op.str_push index cs')

  -- The slot of a variable, added with the type where the table does not have it.
  unfoldable pub slot_of : Str → VarType → CompilerState h → ℤ × CompilerState h
  slot_of name type cs = elim (compiler_find_variable cs name) [
    | pos slot ↦ (pos slot, cs)
    | negsuc n ↦ compiler_add_variable name type cs
  ]

  -- An instruction on the slot of a variable.
  unfoldable pub emit_on : Op → Str → VarType → Step h
  unfolding slot_of
  emit_on op name type cs =
      let (slot, cs') = slot_of name type cs in some (compiler_emit op (to_u16 slot) cs')

  -- A jump to a line: its offset where the line is compiled, else a fixup.
  unfoldable pub jump_to_known : Op → ℕ → JumpType → ℤ → Step h
  jump_to_known op line type (pos offset) cs = some (compiler_emit op (offset % 2 ^ 16) cs)
  jump_to_known op line type (negsuc _) cs =
      let cs' = compiler_emit op 0xffff cs in
      some (compiler_add_jump_fixup ((length cs'.program.code - 1) % 2 ^ 32) line type cs')

  unfoldable pub emit_jump : Op → ℕ → JumpType → Step h
  unfolding jump_to_known
  emit_jump op line type cs =
      jump_to_known op line type (find_line_offset cs.program.line_map line) cs

  -- `code[at].operand = code_len`
  unfoldable pub patch_here : ℕ → Step h
  patch_here at cs = patch cs.program.code at (length cs.program.code) >>= λ code.
      some (record cs { program = record cs.program { code = code } })

  -- `p->field` before the rest: undefined where `p` is null.
  unfoldable pub deref : ParseNode h → Step h → Step h
  deref null body = undefined
  deref (node type token text value line kids) body = body

  -- `stmt->children[n]`
  unfoldable pub with_child : Children h → ℕ → (ParseNode h → Step h) → Step h
  with_child kids n body cs = child kids n >>= λ c. body c cs

  -- `if (!n || !n->text) return;`
  unfoldable pub with_name : ParseNode h → (Str → Step h) → Step h
  unfolding name_of
  with_name n body = elim (name_of n) as (λ _. Step h) [ none ↦ skip | some name ↦ body name ]

  -- A jump to the line that a constant is.
  unfoldable pub jump_to : Op → JumpType → ParseNode h → Step h
  unfolding emit_jump
  jump_to op type target cs = value_of target >>= λ v. emit_jump op (h.to_u16 v) type cs
