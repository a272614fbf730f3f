-- ===== src/Compiler/Soundness/Items.antt =====
-- DIM, DATA and READ of src/compiler.c keep the invariant of the compiler.
use basset_lang.Prelude.{ℕ, refl, ltb, Option, none, some, if◌then◌else◌, ◌&&◌, ◌||◌, ◌==◌}
use basset_lang.Host.{Host, Str}
use basset_lang.Bytecode.{Op}
use basset_lang.Tokens
use basset_lang.Program.{DataEntry, data_null}
use basset_lang.Vm.Stack.{num}
use basset_lang.Compiler.Tree.{
  kids_or_nil, NodeType, statement, expression, variable, constant, operator, function_call,
  assignment, ParseNode, null, node, Children, nil, cons, count, is_type, is_node, child_or_null,
  value_of,
}
use basset_lang.Compiler.Emit.{Step, skip, undefined, get_var_type}
use basset_lang.Compiler.Storage.{}
use basset_lang.Compiler.Items.{
  push_value, dim_array, dim_target, compile_dim, add_data, add_data_string, add_data_number,
  data_item, data_pair, data_node, extract_data_values_recursive, extract_all, extract_second,
  compile_data, read_node, compile_read_recursive, compile_read_all, compile_read, entry,
  second_dimension, dim_variable, text_or_null,
}
use basset_lang.Compiler.Loops.{}
use basset_lang.Compiler.Soundness.{Keeps, seq, done, stuck, branch, required}
use basset_lang.Compiler.Soundness.Steps.{
  push_number_keeps, emit_on_keeps, deref_keeps, with_child_keeps, same_code,
}
use basset_lang.Compiler.Soundness.Storage.{on_slot_keeps}

module _ {h : Host} where
  push_value_keeps : (n : ParseNode h) → Keeps h (push_value n)
  unfolding push_value value_of
  push_value_keeps null cs s = tt
  push_value_keeps (node type token text value line kids) cs s = push_number_keeps value cs s

  dim_array_keeps : (name : Option Str) (d₁ d₂ : ParseNode h) → Keeps h (dim_array name d₁ d₂)
  unfolding dim_array
  dim_array_keeps none d₁ d₂ = stuck
  dim_array_keeps (some name) d₁ d₂ =
      branch (is_type constant d₂) _ _
        (on_slot_keeps name _ _ Op.dim_2d (seq _ _ (push_value_keeps d₁) (push_value_keeps d₂)))
        (on_slot_keeps name _ _ Op.dim_1d (push_value_keeps d₁))

  dim_target_keeps :
      (var : ParseNode h) (name : Option Str) (subs : Children h)
      → Keeps h (dim_target var name subs)
  unfolding dim_target
  dim_target_keeps var name subs =
      let dim₁ = child_or_null subs 2 in
      let dim₂ = second_dimension subs in
      branch (is_type variable var && is_type constant dim₁) (dim_array name dim₁ dim₂) skip
        (dim_array_keeps name dim₁ dim₂) done

  pub dim_keeps : (kids : Children h) → Keeps h (compile_dim kids)
  unfolding compile_dim
  dim_keeps kids = required 2 kids _ (
      with_child_keeps kids 0 _ (λ n.
        let subs = kids_or_nil (child_or_null (kids_or_nil n) 0) in
        let var = dim_variable subs in
        branch (ltb 2 (count subs)) (dim_target var (text_or_null var) subs) skip
          (dim_target_keeps var (text_or_null var) subs) done))

  add_data_keeps : (item : DataEntry) → Keeps h (add_data item)
  unfolding add_data
  add_data_keeps item cs s = same_code cs _ refl refl refl s

  add_data_string_keeps : (str : Str) → Keeps h (add_data_string str)
  unfolding add_data_string add_data
  add_data_string_keeps str cs s = same_code cs _ refl refl refl s

  add_data_number_keeps : (value : h.Double) → Keeps h (add_data_number value)
  unfolding add_data_number add_data
  add_data_number_keeps value cs s = same_code cs _ refl refl refl s

  data_item_keeps :
      (token : ℕ) (text : Option Str) (value : h.Double) → Keeps h (data_item token text value)
  unfolding data_item
  data_item_keeps token none value =
      let number = if token == Tokens.tok_number then value else num h 0 in
      branch (token == Tokens.tok_string) undefined (add_data_number number) stuck
        (add_data_number_keeps number)
  data_item_keeps token (some text) value =
      let number = if token == Tokens.tok_number then value else num h 0 in
      branch (token == Tokens.tok_string || token == Tokens.tok_ident) (add_data_string text)
        (add_data_number number) (add_data_string_keeps text) (add_data_number_keeps number)

  data_pair_keeps :
      (a b : ParseNode h) (f g : Step h) → Keeps h f → Keeps h g → Keeps h (data_pair a b f g)
  unfolding data_pair
  data_pair_keeps a b f g kf kg = deref_keeps a _ (
      branch (is_node operator Tokens.tok_ccom a) _ _
        (deref_keeps b _ (
          branch (is_type expression b) _ _
            (seq (add_data (entry data_null 0)) g (add_data_keeps (entry data_null 0)) kg) kf))
        kf)

  data_node_keeps :
      (type : NodeType) (token : ℕ) (text : Option Str) (value : h.Double) (kids : Children h)
      (f g : Step h)
      → Keeps h f
      → Keeps h g
      → Keeps h (data_node type token text value kids f g)
  unfolding data_node
  data_node_keeps constant token text value kids f g kf kg = data_item_keeps token text value
  data_node_keeps variable token text value kids f g kf kg = data_item_keeps token text value
  data_node_keeps expression token text value nil f g kf kg = kf
  data_node_keeps expression token text value (cons a nil) f g kf kg = kf
  data_node_keeps expression token text value (cons a (cons b nil)) f g kf kg =
      data_pair_keeps a b f g kf kg
  data_node_keeps expression token text value (cons a (cons b (cons c kids))) f g kf kg = kf
  data_node_keeps statement token text value kids f g kf kg = kf
  data_node_keeps operator token text value kids f g kf kg = kf
  data_node_keeps function_call token text value kids f g kf kg = kf
  data_node_keeps assignment token text value kids f g kf kg = kf

mutual
  unfolding extract_data_values_recursive

  extract_keeps : {h : Host} (n : ParseNode h) → Keeps h (extract_data_values_recursive n)
  extract_keeps null = done
  extract_keeps (node type token text value line kids) =
      data_node_keeps type token text value kids _ _ (extract_all_keeps kids)
        (extract_second_keeps kids)

  extract_all_keeps : {h : Host} (kids : Children h) → Keeps h (extract_all kids)
  extract_all_keeps nil = done
  extract_all_keeps (cons c kids) = seq _ _ (extract_keeps c) (extract_all_keeps kids)

  extract_second_keeps : {h : Host} (kids : Children h) → Keeps h (extract_second kids)
  extract_second_keeps nil = done
  extract_second_keeps (cons a nil) = done
  extract_second_keeps (cons a (cons b kids)) = extract_keeps b

module _ {h : Host} where
  pub data_keeps : (kids : Children h) → Keeps h (compile_data kids)
  unfolding compile_data
  data_keeps kids = required 1 kids _ (with_child_keeps kids 0 _ extract_keeps)

  read_node_keeps :
      (type : NodeType) (text : Option Str) (f : Step h)
      → Keeps h f
      → Keeps h (read_node type text f)
  unfolding read_node
  read_node_keeps variable (some name) f k = emit_on_keeps _ name (get_var_type name)
  read_node_keeps expression (some name) f k = emit_on_keeps _ name (get_var_type name)
  read_node_keeps variable none f k = k
  read_node_keeps expression none f k = k
  read_node_keeps statement text f k = k
  read_node_keeps constant text f k = k
  read_node_keeps operator text f k = k
  read_node_keeps function_call text f k = k
  read_node_keeps assignment text f k = k

mutual
  unfolding compile_read_recursive

  read_recursive_keeps : {h : Host} (n : ParseNode h) → Keeps h (compile_read_recursive n)
  read_recursive_keeps null = done
  read_recursive_keeps (node type token text value line kids) =
      read_node_keeps type text _ (read_all_keeps kids)

  read_all_keeps : {h : Host} (kids : Children h) → Keeps h (compile_read_all kids)
  read_all_keeps nil = done
  read_all_keeps (cons c kids) = seq _ _ (read_recursive_keeps c) (read_all_keeps kids)

module _ {h : Host} where
  pub read_keeps : (kids : Children h) → Keeps h (compile_read kids)
  unfolding compile_read
  read_keeps kids = required 1 kids _ (with_child_keeps kids 0 _ read_recursive_keeps)
