-- ===== src/Relocate.antt =====
-- vm/vm.cpp: `Program::relocate` and its helpers. The maps from names to indexes are functions. The
-- result is the changed program: one that a rejected relocation leaves half done is thrown away by
-- the caller.
pub mod Indexes
pub mod Elems
pub mod Steps
pub mod Elements
pub mod Keeps
pub mod Whole
