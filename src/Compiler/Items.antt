-- ===== src/Compiler/Items.antt =====
-- src/compiler.c: DIM, DATA and READ.
use basset_lang.Prelude.{
  ℕ, ◌&&◌, ◌||◌, ltb, ◌==◌, Option, none, some, [], ◌∷◌, ◌++◌, length, if◌then◌else◌, ◌>>=◌,
}
use basset_lang.Host.{Host, Str}
use basset_lang.Bytecode.{Op}
use basset_lang.Tokens
use basset_lang.Program.{
  var_array_1d, var_array_2d, DataEntry, DataType, data_numeric, data_string, data_null,
}
use basset_lang.Vm.Stack.{num}
use basset_lang.Vm.Execute.{has_dollar}
use basset_lang.Compiler.Tree.{
  NodeType, expression, variable, constant, operator, ParseNode, null, node, Children, nil, cons,
  is_type, is_node, count, count_of, value_of, child_or_null, kids_or_nil,
}
use basset_lang.Compiler.Emit.{
  Step, ◌>=>◌, skip, undefined, require, push_number, emit_on, get_var_type, deref, with_child,
}
use basset_lang.Compiler.Storage.{on_slot, is_null}

abbrev pub entry : DataType → ℕ → DataEntry
entry type index = record { type = type; index = index }

module _ {h : Host} where
  unfoldable pub push_value : ParseNode h → Step h
  unfolding value_of push_number
  push_value n cs = value_of n >>= λ v. push_number v cs

  -- The array with its dimensions; `dim₂` is null for one dimension. A null name is compared only
  -- where there are variables; it is undefined here.
  unfoldable pub dim_array : Option Str → ParseNode h → ParseNode h → Step h
  unfolding on_slot push_value
  dim_array none dim₁ dim₂ = undefined
  dim_array (some name) dim₁ dim₂ =
      let type = if is_null dim₂ then var_array_1d else var_array_2d in
      if is_type constant dim₂
      then on_slot name type (push_value dim₁ >=> push_value dim₂) Op.dim_2d
      else on_slot name type (push_value dim₁) Op.dim_1d

  -- The second dimension: behind the comma of the fourth child, of five.
  unfoldable pub second_dimension : Children h → ParseNode h
  unfolding count child_or_null kids_or_nil
  second_dimension subs =
      if ltb 4 (count subs) then child_or_null (kids_or_nil (child_or_null subs 3)) 1 else null

  unfoldable pub dim_target : ParseNode h → Option Str → Children h → Step h
  unfolding second_dimension dim_array
  dim_target var name subs =
      let dim₁ = child_or_null subs 2 in
      if is_type variable var && is_type constant dim₁
      then dim_array name dim₁ (second_dimension subs)
      else skip

  -- The variable: the first child, or its first child.
  unfoldable pub dim_variable : Children h → ParseNode h
  unfolding child_or_null kids_or_nil
  dim_variable subs =
      let first = child_or_null subs 0 in
      if ltb 0 (count_of first) then child_or_null (kids_or_nil first) 0 else first

  unfoldable pub text_or_null : ParseNode h → Option Str
  text_or_null null = none
  text_or_null (node type token text value line kids) = text

  unfoldable pub compile_dim : Children h → Step h
  unfolding with_child child_or_null kids_or_nil dim_variable dim_target text_or_null
  compile_dim kids = require 2 kids (
      with_child kids 0 (λ var_expr.
        let subs = kids_or_nil (child_or_null (kids_or_nil var_expr) 0) in
        let var = dim_variable subs in
        if ltb 2 (count subs) then dim_target var (text_or_null var) subs else skip))

  unfoldable pub add_data : DataEntry → Step h
  add_data item cs = some (record cs {
    program = record cs.program { data_entries = cs.program.data_entries ++ (item ∷ []) };
  })

  unfoldable pub add_data_string : Str → Step h
  unfolding add_data
  add_data_string str cs =
      let pool = cs.program.data_string_pool in
      add_data (entry data_string (length pool))
        (record cs { program = record cs.program { data_string_pool = pool ++ (str ∷ []) } })

  unfoldable pub add_data_number : h.Double → Step h
  unfolding add_data
  add_data_number value cs =
      let pool = cs.program.data_numeric_pool in
      add_data (entry data_numeric (length pool))
        (record cs { program = record cs.program { data_numeric_pool = pool ++ (value ∷ []) } })

  -- A constant or an identifier as an item. A string without text would be a null string.
  unfoldable pub data_item : ℕ → Option Str → h.Double → Step h
  unfolding add_data_string add_data_number
  data_item token none value =
      if token == Tokens.tok_string
      then undefined
      else add_data_number (if token == Tokens.tok_number then value else num h 0)
  data_item token (some text) value =
      if token == Tokens.tok_string || token == Tokens.tok_ident
      then add_data_string text
      else add_data_number (if token == Tokens.tok_number then value else num h 0)

  -- An expression with two children: a comma and an expression are an item that is missing.
  unfoldable pub data_pair : ParseNode h → ParseNode h → Step h → Step h → Step h
  unfolding deref add_data
  data_pair first second items rest = deref first (
      if is_node operator Tokens.tok_ccom first
      then deref second
          (if is_type expression second then add_data (entry data_null 0) >=> rest else items)
      else items)

  unfoldable pub data_node :
      NodeType → ℕ → Option Str → h.Double → Children h → Step h → Step h → Step h
  unfolding data_item data_pair
  data_node constant token text value kids items last = data_item token text value
  data_node variable token text value kids items last = data_item token text value
  data_node expression token text value (cons first (cons second nil)) items last =
      data_pair first second items last
  data_node _ token text value kids items last = items

unfoldable mutual
  unfolding data_node

  pub extract_data_values_recursive : {h : Host} → ParseNode h → Step h
  extract_data_values_recursive null = skip
  extract_data_values_recursive (node type token text value line kids) =
      data_node type token text value kids (extract_all kids) (extract_second kids)

  pub extract_all : {h : Host} → Children h → Step h
  extract_all nil = skip
  extract_all (cons c kids) = extract_data_values_recursive c >=> extract_all kids

  -- The second child.
  pub extract_second : {h : Host} → Children h → Step h
  extract_second (cons a (cons b kids)) = extract_data_values_recursive b
  extract_second kids = skip

module _ {h : Host} where
  unfoldable pub compile_data : Children h → Step h
  unfolding with_child extract_data_values_recursive
  compile_data kids = require 1 kids (with_child kids 0 extract_data_values_recursive)

  -- A node that names what is read; `rest` is for any other node.
  unfoldable pub read_node : NodeType → Option Str → Step h → Step h
  unfolding emit_on
  read_node variable (some name) rest =
      emit_on (if has_dollar name then Op.data_read_str else Op.data_read_num) name
        (get_var_type name)
  read_node expression (some name) rest =
      emit_on (if has_dollar name then Op.data_read_str else Op.data_read_num) name
        (get_var_type name)
  read_node _ text rest = rest

unfoldable mutual
  unfolding read_node

  pub compile_read_recursive : {h : Host} → ParseNode h → Step h
  compile_read_recursive null = skip
  compile_read_recursive (node type token text value line kids) =
      read_node type text (compile_read_all kids)

  pub compile_read_all : {h : Host} → Children h → Step h
  compile_read_all nil = skip
  compile_read_all (cons c kids) = compile_read_recursive c >=> compile_read_all kids

module _ {h : Host} where
  unfoldable pub compile_read : Children h → Step h
  unfolding with_child compile_read_recursive
  compile_read kids = require 1 kids (with_child kids 0 compile_read_recursive)
