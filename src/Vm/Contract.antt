-- ===== src/Vm/Contract.antt =====
-- What the operations of src/vm.c promise to a BASIC program.
pub mod Calls
pub mod Traps
pub mod Text
pub mod Memory
pub mod Chance
pub mod Runs
pub mod Columns
pub mod Elements
