-- ===== src/Compiler/Whole.antt =====
-- src/compiler.c: `compiler_compile`, from the tree of a program to the compiled program.
use basset_lang.Prelude.{
  ℕ, ◌%◌, ◌^◌, ◌&&◌, ◌==◌, false, Option, none, some, [], length, if◌then◌else◌, ◌>>=◌,
}
use basset_lang.Host.{Host, Str}
use basset_lang.Tokens
use basset_lang.Program.{CompiledProgram, var_array_1d}
use basset_lang.Compiler.{
  CompilerState, compiler_add_variable, compiler_add_line_mapping, compiler_resolve_jumps,
}
use basset_lang.Compiler.Tree.{
  NodeType, statement, variable, ParseNode, null, node, Children, nil, cons, same_type,
  child_or_null, unwrap,
}
use basset_lang.Compiler.Emit.{Step, ◌>=>◌, skip, to_u16, get_var_type}
use basset_lang.Compiler.Storage.{variable_name}
use basset_lang.Compiler.Statements.{compile_statement}

module _ {h : Host} where
  abbrev pub empty_program : CompiledProgram h
  empty_program = record {
    code = [];
    const_pool = [];
    string_pool = [];
    data_numeric_pool = [];
    data_string_pool = [];
    data_entries = [];
    var_table = [];
    line_map = [];
  }

  abbrev pub compiler_state_new : CompilerState h
  compiler_state_new = record {
    program = empty_program;
    jump_fixups = [];
    current_line = 0;
    has_error = false;
    undefined_line = none;
  }

  -- A variable is registered with the type of its name.
  unfoldable pub discover_variable : NodeType → Option Str → CompilerState h → CompilerState h
  discover_variable variable (some name) cs = (compiler_add_variable name (get_var_type name) cs).1
  discover_variable type text cs = cs

  -- The variable of DIM, below wrappers, is registered as an array.
  unfoldable pub discover_dim : NodeType → ℕ → Children h → CompilerState h → CompilerState h
  unfolding child_or_null unwrap variable_name
  discover_dim type token kids cs =
      let added : CompilerState h = elim (variable_name (unwrap (child_or_null kids 0))) [
        | none ↦ cs
        | some name ↦ (compiler_add_variable name var_array_1d cs).1
      ] in
      if same_type statement type && token == Tokens.tok_dim then added else cs

unfoldable mutual
  unfolding discover_variable discover_dim

  pub discover_variables_in_tree : {h : Host} → ParseNode h → CompilerState h → CompilerState h
  discover_variables_in_tree null cs = cs
  discover_variables_in_tree (node type token text value line kids) cs =
      discover_all kids (discover_dim type token kids (discover_variable type text cs))

  pub discover_all : {h : Host} → Children h → CompilerState h → CompilerState h
  discover_all nil cs = cs
  discover_all (cons c kids) cs = discover_all kids (discover_variables_in_tree c cs)

module _ {h : Host} where
  unfoldable pub compile_line : ParseNode h → Step h
  unfolding compile_statement
  compile_line (node statement token text value line kids) cs =
      let line_num = to_u16 line in
      let at = length cs.program.code % 2 ^ 32 in
      compile_statement (node statement token text value line kids)
        (compiler_add_line_mapping line_num at (record cs { current_line = line_num }))
  compile_line n cs = some cs

  unfoldable pub compile_lines : Children h → Step h
  unfolding compile_line
  compile_lines nil = skip
  compile_lines (cons c kids) = compile_line c >=> compile_lines kids

  -- The program, or nothing where a line is not defined.
  unfoldable pub program_of : CompilerState h → Option (CompiledProgram h)
  program_of cs = if cs.has_error then none else some cs.program

  -- The outer option is behaviour that is undefined, the inner one is the pointer returned.
  unfoldable pub compiler_compile : ParseNode h → Option (Option (CompiledProgram h))
  unfolding discover_variables_in_tree compile_lines compiler_resolve_jumps program_of
  compiler_compile null = some none
  compiler_compile (node type token text value line kids) =
      let root : ParseNode h = node type token text value line kids in
      do
        cs ← compile_lines kids (discover_variables_in_tree root compiler_state_new)
        done ← compiler_resolve_jumps cs
        some (program_of done)
