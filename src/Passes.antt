-- ===== src/Passes.antt =====
-- src/passes: the passes over LLVM IR that prepare a program. What they read of the IR is in Ir.
pub mod Barrier
pub mod CheckPoint
pub mod Copy
pub mod Ids
pub mod Ir
pub mod Live
pub mod Names
