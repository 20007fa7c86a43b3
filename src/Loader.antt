-- ===== src/Loader.antt =====
-- vm/impl_loader.cpp
pub mod Result
pub mod Bytes
pub mod Format
pub mod Sizes
pub mod Sections
pub mod Addrs
pub mod Data
pub mod Relocs
pub mod Symbols
pub mod Program
