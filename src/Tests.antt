-- ===== src/Tests.antt =====
-- Runs of the modelled code on concrete inputs, and the theorems at inputs that meet their hypotheses.
mod Loading
mod Words
pub mod Worlds
mod Threads
mod Relocation
pub mod Arithmetic
mod Objects
mod Operations
mod Circles
pub mod Linking
mod Symbols
mod Collecting
mod Tables
mod Strategies
