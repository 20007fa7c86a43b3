-- ===== src/Link.antt =====
-- vm/impl_vm_base.cpp and vm/impl_env.hpp: how several files become one running image.
pub mod Env
pub mod Symbols
pub mod Programs
pub mod Safe
pub mod Names
pub mod Loops
pub mod Resolved
