-- ===== src/Examples.antt =====
-- Sample data, and the theorems at it.
mod Around
pub mod Binary
mod Blocks
mod Freed
pub mod Handler
pub mod Maps
mod Inlined
pub mod InlinedMap
mod Passes
pub mod Queries
pub mod Rebuilt
pub mod Stacks
mod System
mod Values
