-- ===== src/Source.antt =====
-- compiler/gof-compiler/src/source.rs: positions in a source text.
pub mod Provider
pub mod Maps
use gof_lang.Prelude.{ℕ}

-- One line of a source, and the columns from the first up to, not including, the last; both count
-- from 1.
pub record Span : Type 0 where
  pub line : ℕ
  pub column : ℕ
  pub end_column : ℕ

abbrev pub span : ℕ → ℕ → ℕ → Span
span line column end_column = record { line = line; column = column; end_column = end_column }
