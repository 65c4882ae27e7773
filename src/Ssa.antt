-- ===== src/Ssa.antt =====
-- compiler/gof-compiler/src/ssa.rs and backend.rs: the form with named values.
pub mod Instruction
pub mod Lower
pub mod Names
pub mod Raise
mod Tests
