-- ===== src/Gc.antt =====
-- vm/gc/mark_sweep_gc.cpp, vm/gc/mark_sweep_gc.hpp: the garbage collector.
pub mod Headers
pub mod Collect
pub mod Chains
pub mod Marks
pub mod Roots
pub mod Sweeps
pub mod Whole
pub mod Allocation
pub mod Traversal
pub mod Live
pub mod Entries
