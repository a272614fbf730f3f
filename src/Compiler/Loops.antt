-- ===== src/Compiler/Loops.antt =====
-- src/compiler.c: FOR and NEXT.
use basset_lang.Prelude.{
  ℕ, ◌+◌, ◌%◌, ◌^◌, pos, negsuc, Bool, true, false, ◌||◌, ltb, ◌==◌, Option, some, List, [], ◌∷◌,
  ◌++◌, length, if◌then◌else◌,
}
use basset_lang.Host.{Host, Str}
use basset_lang.Bytecode.{Op}
use basset_lang.Tokens
use basset_lang.Program.{var_numeric}
use basset_lang.Vm.Stack.{num}
use basset_lang.Compiler.{CompilerState, same_text, compiler_emit, compiler_find_variable}
use basset_lang.Compiler.Tree.{
  NodeType, expression, variable, ParseNode, null, node, Children, nil, cons, count, child_or_null,
  unwrap,
}
use basset_lang.Compiler.Emit.{Step, ◌>=>◌, require, push_number, with_child, with_name}
use basset_lang.Compiler.Expressions.{compile_expression, compile_child}
use basset_lang.Compiler.Storage.{on_slot}

module _ {h : Host} where
  -- The step, or 1 where it is absent, null or an expression node.
  unfoldable pub compile_step : ParseNode h → Step h
  unfolding push_number
  compile_step null = push_number (num h 1)
  compile_step (node expression token text value line kids) = push_number (num h 1)
  compile_step n = compile_expression n

  unfoldable pub compile_for : Children h → Step h
  unfolding with_child with_name on_slot child_or_null compile_step
  compile_for kids = require 5 kids (
      with_child kids 0 (λ var_node.
        let step_expr = if ltb 6 (count kids) then child_or_null kids 6 else null in
        with_name (unwrap var_node) (λ name.
          on_slot name var_numeric
            (compile_child kids 2 >=> compile_child kids 4 >=> compile_step step_expr)
            Op.for_init)))

-- TOK_CCR and TOK_CEOS, which end a statement.
abbrev pub end_token : ℕ → Bool
end_token token = token == Tokens.tok_ccr || token == Tokens.tok_ceos

unfoldable pub has_name : Str → List Str → Bool
has_name name [] = false
has_name name (s ∷ names) = same_text s name || has_name name names

-- `emitted_vars` and the compiler.
abbrev pub NextState : Host → Type 0
NextState h = List Str × CompilerState h

module _ {h : Host} where
  -- FOR_NEXT for a variable that is not yet emitted. The array has place for 100 names.
  unfoldable pub next_variable : Str → NextState h → ℕ × NextState h
  unfolding has_name
  next_variable name (seen, cs) =
      let slot : ℕ = elim (compiler_find_variable cs name) [
        | pos slot ↦ slot % 2 ^ 16
        | negsuc _ ↦ 0xffff
      ] in
      let seen' = if ltb (length seen) 100 then seen ++ (name ∷ []) else seen in
      if has_name name seen
      then (0, (seen, cs))
      else (1, (seen', compiler_emit Op.for_next slot cs))

  unfoldable pub next_node :
      NodeType → ℕ → Option Str → (NextState h → ℕ × NextState h) → NextState h → ℕ × NextState h
  unfolding next_variable
  next_node variable token (some name) rest s =
      if end_token token || token == Tokens.tok_ccom then (0, s) else next_variable name s
  next_node type token text rest s =
      if end_token token || token == Tokens.tok_ccom then (0, s) else rest s

unfoldable mutual
  unfolding next_node

  -- How many instructions were emitted, and the state after them.
  pub compile_next_variables : {h : Host} → ParseNode h → NextState h → ℕ × NextState h
  compile_next_variables null s = (0, s)
  compile_next_variables (node type token text value line kids) s =
      next_node type token text (compile_next_all kids) s

  pub compile_next_all : {h : Host} → Children h → NextState h → ℕ × NextState h
  compile_next_all nil s = (0, s)
  compile_next_all (cons c kids) s =
      let (emitted, s') = compile_next_variables c s in
      let (more, s'') = compile_next_all kids s' in (emitted + more, s'')

module _ {h : Host} where
  abbrev pub ends_statement : ParseNode h → Bool
  ends_statement null = true
  ends_statement (node type token text value line kids) = end_token token

  -- The first child that emits anything; with none, the instruction for the innermost loop.
  unfoldable pub next_first : Children h → NextState h → CompilerState h
  unfolding compile_next_variables
  next_first nil (seen, cs) = compiler_emit Op.for_next 0xffff cs
  next_first (cons c kids) s =
      let (emitted, s') = compile_next_variables c s in
      let rest = next_first kids s in
      let rest' = next_first kids s' in
      if ends_statement c then rest else if emitted == 0 then rest' else s'.1

  unfoldable pub compile_next : Children h → Step h
  unfolding next_first
  compile_next kids cs = some (next_first kids ([], cs))
