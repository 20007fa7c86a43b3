-- ===== src/Table.antt =====
-- vm/hash_table.hpp: the hash tables of the virtual machine.
pub mod Ops
pub mod Links
pub mod Cuts
pub mod Held
pub mod Values
pub mod Adds
pub mod Fresh
pub mod Removed
pub mod Dels
