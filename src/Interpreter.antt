-- ===== src/Interpreter.antt =====
-- compiler/gof-compiler/src/interpreter.rs: the parts of the interpreter that are modelled.
pub mod Channel
pub mod Scopes
