-- ===== src/Lexer.antt =====
-- compiler/gof-compiler/src/lexer.rs, from characters to lines to a whole source.
pub mod Chars
pub mod Line
pub mod Lex
mod Tests
