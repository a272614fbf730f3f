-- ===== src/Compiler/Output.antt =====
-- src/compiler.c: PRINT and INPUT.
use basset_lang.Prelude.{
  ℕ, Bool, true, false, not, ◌&&◌, ◌||◌, ◌==◌, Option, none, some, if◌then◌else◌, ◌>>=◌,
}
use basset_lang.Host.{Host, Str}
use basset_lang.Bytecode.{Op}
use basset_lang.Tokens
use basset_lang.Vm.Execute.{has_dollar}
use basset_lang.Compiler.{compiler_add_string, compiler_emit}
use basset_lang.Compiler.Tree.{
  NodeType, expression, variable, constant, operator, function_call, ParseNode, null, node,
  Children, nil, cons, is_type, is_node,
}
use basset_lang.Compiler.Emit.{Step, ◌>=>◌, skip, emit, emit_on, get_var_type}
use basset_lang.Compiler.Expressions.{compile_expression}
use basset_lang.Compiler.Storage.{is_null, or_else}

-- The functions whose value is a string.
abbrev pub string_function : ℕ → Bool
string_function token =
    token == Tokens.tok_cleft
    || token == Tokens.tok_cright
    || token == Tokens.tok_cmid
    || token == Tokens.tok_cchr
    || token == Tokens.tok_cstr

-- `strchr(text, '$')`; of a null text it is undefined.
unfoldable pub text_has_dollar : Option Str → Option Bool
text_has_dollar none = none
text_has_dollar (some text) = some (has_dollar text)

unfoldable pub prompt_text : NodeType → ℕ → Option Str → Option Str
prompt_text constant token text = if token == Tokens.tok_string then text else none
prompt_text type token text = none

module _ {h : Host} where
  -- A child of an expression that is a string variable or a string function.
  unfoldable pub child_is_string : ParseNode h → Option Bool
  unfolding text_has_dollar
  child_is_string (node variable token text value line kids) = text_has_dollar text
  child_is_string (node function_call token text value line kids) = some (string_function token)
  child_is_string n = some false

  unfoldable pub some_child_is_string : Children h → Option Bool
  unfolding child_is_string
  some_child_is_string nil = some false
  some_child_is_string (cons c kids) =
      let rest = some_child_is_string kids in
      child_is_string c >>= λ found. if found then some true else rest

  -- What PRINT takes for a string.
  unfoldable pub prints_string : ParseNode h → Option Bool
  unfolding text_has_dollar some_child_is_string
  prints_string null = some false
  prints_string (node constant token text value line kids) = some (token == Tokens.tok_string)
  prints_string (node variable token text value line kids) = text_has_dollar text
  prints_string (node function_call token text value line kids) = some (string_function token)
  prints_string (node expression token text value line kids) = some_child_is_string kids
  prints_string (node _ token text value line kids) = some false

  unfoldable pub print_value : ParseNode h → Step h
  unfolding emit prints_string
  print_value n = compile_expression n >=> λ cs.
      prints_string n >>= λ is_string. emit (if is_string then Op.print_str else Op.print_num) 0 cs

  -- An item, and then the rest with whether the item is a separator.
  unfoldable pub print_item : ParseNode h → Bool → (Bool → Step h) → Step h
  unfolding emit print_value
  print_item item trailing rest =
      if is_null item
      then rest trailing
      else if is_node operator Tokens.tok_csc item
      then rest true
      else if is_node operator Tokens.tok_ccom item
      then emit Op.print_tab 0 >=> rest true
      else if is_node function_call Tokens.tok_ctab item
      then compile_expression item >=> rest true
      else print_value item >=> rest false

  -- A newline at the end, unless a separator is last.
  unfoldable pub print_items : Children h → Bool → Step h
  unfolding print_item emit
  print_items nil trailing = if trailing then skip else emit Op.print_newline 0
  print_items (cons c kids) trailing = print_item c trailing (λ t. print_items kids t)

  -- `first && first->type != NODE_OPERATOR`
  abbrev pub is_operand : ParseNode h → Bool
  is_operand n = not (is_null n) && not (is_type operator n)

  -- Two operands with no separator between them: the first is a channel.
  unfoldable pub compile_print : Children h → Step h
  unfolding print_items emit
  compile_print (cons first (cons second kids)) =
      if is_operand first && is_operand second
      then compile_expression first
        >=> emit Op.set_print_channel 0
        >=> print_items (cons second kids) false
      else print_items (cons first (cons second kids)) false
  compile_print kids = print_items kids false

  unfoldable pub input_variable : NodeType → Option Str → Step h
  unfolding emit_on
  input_variable variable (some name) =
      emit_on (if has_dollar name then Op.input_str else Op.input_num) name (get_var_type name)
  input_variable type text = skip

unfoldable mutual
  unfolding input_variable prompt_text

  pub find_input_variables : {h : Host} → ParseNode h → Step h
  find_input_variables null = skip
  find_input_variables (node type token text value line kids) =
      input_variable type text >=> find_all_variables kids

  pub find_all_variables : {h : Host} → Children h → Step h
  find_all_variables nil = skip
  find_all_variables (cons c kids) = find_input_variables c >=> find_all_variables kids

  -- The first string constant, which is the prompt.
  pub find_input_prompt : {h : Host} → ParseNode h → Option Str
  find_input_prompt null = none
  find_input_prompt (node type token text value line kids) =
      or_else (prompt_text type token text) (find_prompt kids)

  pub find_prompt : {h : Host} → Children h → Option Str
  find_prompt nil = none
  find_prompt (cons c kids) = or_else (find_input_prompt c) (find_prompt kids)

module _ {h : Host} where
  unfoldable pub emit_prompt : Option Str → Step h
  emit_prompt none cs = some cs
  emit_prompt (some str) cs =
      let (index, cs') = compiler_add_string str cs in
      some (compiler_emit Op.input_prompt index cs')

  unfoldable pub compile_input : Children h → Step h
  unfolding emit_prompt find_input_variables
  compile_input kids = emit_prompt (find_prompt kids) >=> find_all_variables kids
