-- ===== src/Vm.antt =====
-- src/vm.c and src/vm.h: the virtual machine. `State` has the machine's record, `Stack` the stack
-- primitives and the error handling, and each further child the cases of one group of opcodes.
pub mod State
pub mod Stack
pub mod Arith
pub mod Strings
pub mod Jumps
pub mod Print
pub mod Math
pub mod Input
pub mod Arrays
pub mod Reads
pub mod Files
pub mod Execute
pub mod Safety
pub mod Contract
