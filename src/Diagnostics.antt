-- ===== src/Diagnostics.antt =====
-- compiler/gof-compiler/src/diagnostics.rs: the compiler's messages and their collection.
use gof_lang.Prelude.{Text, List, [], ◌∷◌, ◌++◌, map, Option, none, some}
use gof_lang.Source.{Span}

pub data Severity : Type 0 where
  error_severity warning_severity : Severity

pub record Diagnostic : Type 0 where
  pub code : Text
  pub severity : Severity
  pub message : Text
  pub note : Text
  pub span : Span
  pub fix_it : Option Text
  pub source_path : Option Text

-- `Diagnostic::error`
abbrev pub error : Text → Text → Text → Span → Diagnostic
error code message note span = record {
  code = code;
  severity = error_severity;
  message = message;
  note = note;
  span = span;
  fix_it = none;
  source_path = none;
}

abbrev pub with_fix_it : Diagnostic → Text → Diagnostic
with_fix_it d fix_it = record d { fix_it = some fix_it }

abbrev pub with_source_path : Diagnostic → Text → Diagnostic
with_source_path d path = record d { source_path = some path }

-- The newtype `Diagnostics`, as the list that it holds.
abbrev pub Diagnostics : Type 0
Diagnostics = List Diagnostic

abbrev pub push : Diagnostics → Diagnostic → Diagnostics
push ds d = ds ++ d ∷ []

abbrev pub diagnostic_codes : Diagnostics → List Text
diagnostic_codes = map λ d. d.code
