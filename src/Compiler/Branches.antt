-- ===== src/Compiler/Branches.antt =====
-- src/compiler.c: GOTO, GOSUB, TRAP, ON and IF. The statements inside IF are steps that are given.
use basset_lang.Prelude.{
  ℕ, ◌%◌, ◌^◌, Bool, false, ◌&&◌, ◌||◌, ltb, ◌==◌, List, [], ◌∷◌, ◌++◌, length, if◌then◌else◌,
}
use basset_lang.Host.{Host}
use basset_lang.Bytecode.{Op}
use basset_lang.Tokens
use basset_lang.Compiler.{JumpType, jump_absolute, jump_gosub}
use basset_lang.Compiler.Tree.{
  statement, expression, constant, ParseNode, null, node, Children, cons, is_type, is_node,
  count_of, child_or_null, kids_or_nil,
}
use basset_lang.Compiler.Emit.{
  Step, ◌>=>◌, skip, emit, require, emit_jump, patch_here, deref, with_child, jump_to,
}
use basset_lang.Compiler.Expressions.{compile_expression, compile_child}

-- TOK_CGS and TOK_GOSUB_S
abbrev pub gosub_token : ℕ → Bool
gosub_token token = token == Tokens.tok_cgs || token == Tokens.tok_gosub_s

module _ {h : Host} where
  -- A constant is a line, and any other target is computed when the program runs.
  unfoldable pub to_target : Op → Op → JumpType → ParseNode h → Step h
  unfolding deref jump_to emit
  to_target op computed type target = deref target (
      if is_type constant target
      then jump_to op type target
      else compile_expression target >=> emit computed 0)

  unfoldable pub compile_goto : Children h → Step h
  unfolding with_child to_target
  compile_goto kids =
      require 1 kids (with_child kids 0 (to_target Op.jump Op.jump_line jump_absolute))

  unfoldable pub compile_gosub : Children h → Step h
  unfolding with_child to_target
  compile_gosub kids =
      require 1 kids (with_child kids 0 (to_target Op.gosub Op.gosub_line jump_gosub))

  unfoldable pub compile_trap_stmt : Children h → Step h
  unfolding with_child deref jump_to
  compile_trap_stmt kids = require 1 kids (
      with_child kids 0 (λ target.
        deref target
          (if is_type constant target then jump_to Op.trap jump_absolute target else skip)))

  unfoldable pub has_gosub_token : ParseNode h → Bool
  has_gosub_token null = false
  has_gosub_token (node type token text value line kids) = gosub_token token

  -- Whether the node ON1 has the token of GOSUB, itself or as the first child of an expression.
  unfoldable pub on_gosub : ParseNode h → Bool
  unfolding has_gosub_token child_or_null kids_or_nil
  on_gosub on1 =
      has_gosub_token on1
      || (is_type expression on1 && has_gosub_token (child_or_null (kids_or_nil on1) 0))

  unfoldable pub line_of : ParseNode h → List ℕ
  line_of null = []
  line_of (node constant token text value line kids) = h.to_u32 value ∷ []
  line_of (node _ token text value line kids) = []

  -- The lines of EXPL: a line, then a comma and the next EXPL below EXPL1.
  unfoldable pub on_lines : ParseNode h → List ℕ
  unfolding line_of
  on_lines
        (node expression _ _ _ _
          (cons first (cons (node _ _ _ _ _ (cons comma (cons next more))) others))) =
      line_of first ++ on_lines next
  on_lines (node expression _ _ _ _ (cons first others)) = line_of first
  on_lines n = []

  -- An entry of the table after ON, for each line.
  unfoldable pub emit_targets : List ℕ → JumpType → Step h
  unfolding emit_jump
  emit_targets [] type = skip
  emit_targets (line ∷ lines) type =
      emit_jump Op.nop (line % 2 ^ 16) type >=> emit_targets lines type

  unfoldable pub emit_on_table : Bool → List ℕ → Step h
  unfolding emit emit_targets
  emit_on_table is_gosub lines =
      emit (if is_gosub then Op.on_gosub else Op.on_goto) (length lines % 2 ^ 16)
      >=> emit_targets lines (if is_gosub then jump_gosub else jump_absolute)

  unfoldable pub compile_on : Children h → Step h
  unfolding with_child on_gosub on_lines emit_on_table
  compile_on kids = require 3 kids (
      with_child kids 1 (λ on1. with_child kids 2 (λ expl.
        if is_type expression expl && ltb 0 (count_of expl)
        then compile_child kids 0 >=> emit_on_table (on_gosub on1) (on_lines expl)
        else skip)))

  -- A child of the part after THEN or ELSE; `body` compiles it as a statement.
  unfoldable pub compile_item : ParseNode h → Step h → Step h
  unfolding deref jump_to
  compile_item c body = deref c (
      if is_type statement c
      then body
      else if is_type expression c
      then compile_expression c
      else if is_node constant Tokens.tok_number c
      then jump_to Op.jump jump_absolute c
      else skip)

  -- The part after THEN; `items` compiles its children.
  unfoldable pub compile_then : ParseNode h → Step h → Step h
  unfolding jump_to
  compile_then part items =
      if ltb 0 (count_of part)
      then items
      else if is_node constant Tokens.tok_number part
      then jump_to Op.jump jump_absolute part
      else skip

  -- The part after ELSE, without the token: a line as a constant in two wrappers, or statements.
  unfoldable pub compile_else : ParseNode h → Step h → Step h
  unfolding jump_to child_or_null kids_or_nil
  compile_else part items =
      let action = child_or_null (kids_or_nil part) 1 in
      let inner = child_or_null (kids_or_nil action) 0 in
      let target = child_or_null (kids_or_nil inner) 0 in
      if ltb 1 (count_of part)
      then (if is_node constant Tokens.tok_number target
          then jump_to Op.jump jump_absolute target
          else items)
      else skip

  -- An instruction whose operand is the end of what follows it.
  unfoldable pub around : Op → (ℕ → Step h) → Step h
  unfolding emit
  around op body cs = (emit op 0 >=> body (length cs.program.code)) cs

  unfoldable pub compile_if_then : Children h → Step h → Step h → Step h
  unfolding with_child child_or_null compile_then compile_else around patch_here
  compile_if_then kids then_items else_items = require 3 kids (
      with_child kids 2 (λ then_part.
        let else_part = child_or_null kids 3 in
        compile_child kids 0
        >=> around Op.jump_if_false (λ jump_if_false.
          compile_then then_part then_items
          >=> (if ltb 0 (count_of else_part)
              then around Op.jump (λ jump_skip_else.
                patch_here jump_if_false
                >=> compile_else else_part else_items
                >=> patch_here jump_skip_else)
              else patch_here jump_if_false))))
