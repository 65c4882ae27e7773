-- ===== src/Mir.antt =====
-- compiler/gof-compiler/src/mir.rs: the linear form of a function, and its construction.
pub mod Instruction
pub mod Builder
pub mod Numbering
pub mod ExprRule
pub mod Scopes
pub mod Values
mod Tests
