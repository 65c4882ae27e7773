-- ===== src/Parser.antt =====
-- compiler/gof-compiler/src/ast.rs: the parser.
pub mod Discriminant
pub mod State
pub mod Progress
pub mod Expr
pub mod TypeRef
pub mod Statement
pub mod Item
pub mod Module
pub mod Lexed
pub mod Print
mod Tests
