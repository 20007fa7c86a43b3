-- ===== src/Interp.antt =====
-- vm/vm/interp_vm.cpp: the operations on integers of the interpreter, and how they get their operands.
pub mod Outcome
pub mod World
pub mod Arith
pub mod Fetch
pub mod Readers
pub mod Objects
pub mod Operands
pub mod Sharing
pub mod Marking
pub mod Shares
pub mod Ops
pub mod Floats
pub mod Arrays
pub mod Uniques
pub mod Calls
pub mod Dispatch
pub mod Instrs
pub mod Steps
pub mod Loop
pub mod Grows
pub mod Fetched
pub mod Reads
pub mod Made
pub mod Typed
pub mod TypedUniques
pub mod TypedCopies
pub mod TypedCalls
pub mod Types
pub mod Words
