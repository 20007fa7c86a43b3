-- ===== src/Thread.antt =====
-- vm/vm.hpp and vm/vm.cpp: `ThreadContext`, the registers and the two stacks of a thread.
pub mod State
pub mod Stack
pub mod Saved
pub mod Exprs
pub mod Calls
pub mod Frames
pub mod Packing
pub mod Balance
pub mod Returns
pub mod TryRegs
pub mod TryPops
pub mod Outer
pub mod Restores
pub mod Errors
