-- ===== src/Lib.antt =====
-- Basset BASIC is a compiler and a virtual machine for a dialect of BASIC. src/tokenizer.c and
-- src/parser.c read a program by the tables of src/syntax_tables.c, src/compiler.c turns it into a
-- `CompiledProgram` (src/compiler.h), src/bytecode_file.c stores one in a file, and src/vm.c runs it.
-- This library models the tokenizer and its table of keywords, the compiler, the bytecode, its file and the
-- virtual machine. A scanner feeds the parser, which is not modelled; the compiler starts from a parse tree.
--
-- Files and what they model:
--   Host         what src/vm.c takes from C: `double` with its operations and casts, the formats of
--                `sprintf`, `atof`, and stdio. It is a parameter of every definition that uses it.
--   Bytecode     src/bytecode.h: the opcodes, their bytes, and instructions.
--   Program      src/compiler.h: `CompiledProgram` and its parts.
--   Tokens       src/tokens.h, the numbers of the tokens that the code names.
--   Tokenizer    src/tokenizer.c: `read_token`, `tokenizer_init` and `tokenizer_next`, for any table of
--                keywords and any `strtod`. The proofs are in Tokenizer/Progress, Words
--                and Stream.
--   KeywordHash  src/keyword_hash.c: the hash table; its proof is in KeywordHash/Lookup.
--   LineMap      `vm_find_line_offset` of src/vm.c, and its proof in LineMap/Search.
--   Compiler     src/compiler.c from `compiler_find_variable` to `compiler_resolve_jumps`: the symbol
--                table, the pools, the code, the line map and the jump fixups. Compiler/Pools,
--                Compiler/Symbols and Compiler/Fixups have the proofs.
--   Compiler/Tree, Emit, Expressions, Branches, Storage, Items, Loops, Output, Channels, Statements, Whole
--                the parse tree of src/parser.h, and the rest of src/compiler.c: expressions, a compiler
--                for each statement, `compile_statement`, and `compiler_compile`.
--   Compiler/Meaning, Operators, Execution, Growth, Refinement
--                the value of a numeric expression read directly off the tree, and its compiled code run on
--                the virtual machine.
--   Compiler/Soundness
--                what every statement keeps of the state of the compiler.
--   BytecodeFile src/bytecode_file.c: the sections in BytecodeFile/Sections, and the proofs in
--                BytecodeFile/Readers and BytecodeFile/RoundTrip.
--   Vm/State     `VMState`, `Value`, `ForLoopState` and `ArrayData` of src/vm.h and src/value.h.
--   Vm/Stack     `vm_push` to `vm_for_pop`, and `vm_error`.
--   Vm/Arith, Strings, Jumps, Print, Math, Input, Arrays, Reads, Files
--                the cases of `vm_execute`: `op_gosub` is the case OP_GOSUB, and so on. Where several
--                cases have one body it is one definition with what differs as an argument.
--   Vm/Execute   `vm_init`, the switch (`execute`), one round of the loop (`step`), and the loop.
--   Vm/Safety    the invariant of the machine and its preservation by every opcode.
--   Vm/Contract  what the operations promise to a BASIC program.
--   Tests        a host over the integers, a program, and each property at a concrete input.
--
-- Conventions. A pointer with a count is a list, and a stack is a list with its top first. `none` as
-- the result of an operation is behaviour that C leaves undefined: an access out of bounds, an `int`
-- or `long` that overflows in an addition, or a string that is freed twice. The program counter is
-- reduced modulo 2^32 and a size modulo 2^64 as in C. A fetch past the end of the code stops the loop.
-- `vm_execute` has fuel for the number of rounds, as a BASIC program may run for ever. The fuel of
-- `search_line` is one more than the length of the map: each round makes the range smaller.
--
-- The C library gives two more parameters: `strtod`, and the bytes of a `double` in a file. A file is a
-- list of bytes with room for a number of them; numbers are stored with the low byte first. In the compiler
-- `none` is a read through a null pointer or past the children of a node. A text holds no NUL, and ends where
-- C has one.
--
-- Not modelled: src/parser.c and the tables of src/syntax_tables.c, which are data for it; the command line
-- programs (basset_vm.c, basset_compile.c, basset_asm.c, basset_disasm.c and basset_tokenize.c), which
-- read options and print; src/util.c and src/floating_point.c; allocation, which is taken to
-- succeed, and its release (`vm_free`, `tokenizer_free`, and the `free` of values that no longer matter); the
-- names of tokens and the messages to `stderr` of the tokenizer; the flushing of streams; `break_flag`, which
-- is never read; casts of a `double` outside the range of the target type, which are what the host says.
mod Prelude
pub mod Host
pub mod Bytecode
pub mod Program
pub mod LineMap
pub mod Tokens
pub mod Tokenizer
pub mod KeywordHash
pub mod BytecodeFile
pub mod Compiler
pub mod Vm
mod Tests
