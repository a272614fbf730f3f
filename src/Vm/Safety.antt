-- ===== src/Vm/Safety.antt =====
-- The machine never leaves defined behaviour on well-formed code: the invariant of the machine, what
-- a loaded program must satisfy, and that every instruction keeps the one under the other.
pub mod Invariant
pub mod Control
pub mod Operations
pub mod Functions
pub mod Variables
pub mod Loops
pub mod Cells
pub mod Arrays
pub mod Io
pub mod Inputs
pub mod Channels
pub mod Programs
pub mod Reads
pub mod Memory
pub mod Parts
pub mod Instructions
pub mod Run
