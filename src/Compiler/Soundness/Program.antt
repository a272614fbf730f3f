-- ===== src/Compiler/Soundness/Program.antt =====
-- `compiler_compile` of src/compiler.c: the jumps of a compiled program.
use basset_lang.Prelude.{ℕ, Bool, true, false, ◌&&◌, ◌==◌, Option, none, some, if◌then◌else◌}
use basset_lang.Host.{Host, Str}
use basset_lang.Tokens
use basset_lang.Program.{var_array_1d}
use basset_lang.Compiler.{CompilerState, compiler_add_variable}
use basset_lang.Compiler.Tree.{
  NodeType, statement, expression, variable, constant, operator, function_call, assignment,
  ParseNode, null, node, Children, nil, cons, child_or_null, same_type, unwrap,
}
use basset_lang.Compiler.Emit.{get_var_type}
use basset_lang.Compiler.Storage.{variable_name}
use basset_lang.Compiler.Whole.{
  discover_variable, discover_dim, discover_variables_in_tree, discover_all,
}
use basset_lang.Compiler.Soundness.{IsSound}
use basset_lang.Compiler.Soundness.Steps.{compiler_add_variable-IsSound}

module _ {h : Host} where
  discover_variable-IsSound :
      (type : NodeType) (text : Option Str) (cs : CompilerState h)
      → IsSound cs
      → IsSound (discover_variable type text cs)
  unfolding discover_variable
  discover_variable-IsSound variable (some name) cs s =
      (compiler_add_variable-IsSound name (get_var_type name) cs s).0
  discover_variable-IsSound variable none cs s = s
  discover_variable-IsSound statement text cs s = s
  discover_variable-IsSound expression text cs s = s
  discover_variable-IsSound constant text cs s = s
  discover_variable-IsSound operator text cs s = s
  discover_variable-IsSound function_call text cs s = s
  discover_variable-IsSound assignment text cs s = s

  discover_dim-IsSound :
      (type : NodeType) (token : ℕ) (kids : Children h) (cs : CompilerState h)
      → IsSound cs
      → IsSound (discover_dim type token kids cs)
  unfolding discover_dim
  discover_dim-IsSound type token kids cs s =
      go (same_type statement type && token == Tokens.tok_dim)
        (variable_name (unwrap (child_or_null kids 0)))
    where
      go :
          (b : Bool) (name : Option Str)
          → let added : CompilerState h = elim name [
            | none ↦ cs
            | some name ↦ (compiler_add_variable name var_array_1d cs).1
          ] in
            IsSound (if b then added else cs)
      go false name = s
      go true none = s
      go true (some name) = (compiler_add_variable-IsSound name var_array_1d cs s).0

mutual
  unfolding discover_variables_in_tree

  discover_variables_in_tree-IsSound :
      {h : Host} (n : ParseNode h) (cs : CompilerState h)
      → IsSound cs
      → IsSound (discover_variables_in_tree n cs)
  discover_variables_in_tree-IsSound null cs s = s
  discover_variables_in_tree-IsSound (node type token text value line kids) cs s =
      discover_all-IsSound kids _
        (discover_dim-IsSound type token kids _ (discover_variable-IsSound type text cs s))

  discover_all-IsSound :
      {h : Host} (kids : Children h) (cs : CompilerState h)
      → IsSound cs
      → IsSound (discover_all kids cs)
  discover_all-IsSound nil cs s = s
  discover_all-IsSound (cons c kids) cs s =
      discover_all-IsSound kids _ (discover_variables_in_tree-IsSound c cs s)
