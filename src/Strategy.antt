-- ===== src/Strategy.antt =====
-- vm/strategy and vm/cache: how a function is evaluated, and the caches of its results.
pub mod Indexes
pub mod Dispatch
pub mod Cache
