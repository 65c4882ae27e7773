-- ===== src/Parser/State.antt =====
-- compiler/gof-compiler/src/ast.rs: `Parser`, and the methods that look at tokens and pass over
-- them. The tokens before the first `eof` are split at the parser's position: the last one before
-- it, and those from it on. At the start `previous` is the first token, as in the source.
use gof_lang.Prelude.{
  Bool, true, false, not, ◌&&◌, List, [], ◌∷◌, ◌++◌, Option, none, some, Text, codes, is_empty,
  if◌then◌else◌,
}
use gof_lang.Source.{Span}
use gof_lang.Diagnostics.{Diagnostic, Diagnostics, push, error, with_fix_it}
use gof_lang.Token.{TokenKind, Token, ident, true_kw, false_kw, eof}
use gof_lang.Parser.Discriminant.{TokenDiscriminant, matches_kind, as_hint, token_debug_name}

pub record Parser : Type 0 where
  pub previous : Token
  pub upcoming : List Token
  pub eof_token : Token
  pub diagnostics : Diagnostics

abbrev pub is_eof : TokenKind → Bool
is_eof eof = true
is_eof _ = false

-- The tokens before the first `eof`, and that; `none` where there is none, and `peek` would panic.
unfoldable pub split_eof : List Token → Option (List Token × Token)
split_eof [] = none
split_eof (t ∷ ts) =
    let rest = split_eof ts in
    if is_eof t.kind
    then some ([], t)
    else elim rest [ none ↦ none | some (before, end) ↦ some (t ∷ before, end) ]

abbrev pub first_or : Token → List Token → Token
first_or t [] = t
first_or _ (t ∷ _) = t

-- `Parser::new`
abbrev pub new_parser : List Token → Token → Parser
new_parser before end = record {
  previous = first_or end before;
  upcoming = before;
  eof_token = end;
  diagnostics = [];
}

abbrev pub peek : Parser → Token
peek p = first_or p.eof_token p.upcoming

abbrev pub at_end : Parser → Bool
at_end p = is_empty p.upcoming

-- At the end, `advance` stays and gives the previous token again.
abbrev pub advance_onto : List Token → Parser → Parser
advance_onto [] p = p
advance_onto (t ∷ ts) p = record p { previous = t; upcoming = ts }

abbrev pub advance : Parser → Parser
advance p = advance_onto p.upcoming p

abbrev pub check : TokenDiscriminant → Parser → Bool
check d p = not (at_end p) && matches_kind d (peek p).kind

abbrev pub report : Diagnostic → Parser → Parser
report d p = record p { diagnostics = push p.diagnostics d }

abbrev pub unexpected_token : TokenDiscriminant → Text → Token → Diagnostic
unexpected_token expected message token =
    with_fix_it
      (error (codes "GOF2002") message
        (codes "found `" ++ (token_debug_name token.kind ++ codes "` instead")) token.span)
      (codes "insert or replace with " ++ as_hint expected)

-- `expect`: the span of the token, and the parser after it.
unfoldable pub expect : TokenDiscriminant → Text → Parser → Span × Parser
expect expected message p =
    if check expected p
    then ((advance p).previous.span, advance p)
    else ((peek p).span, report (unexpected_token expected message (peek p)) p)

abbrev pub ident_or_error : TokenKind → Option Text
ident_or_error (ident value) = some value
ident_or_error _ = none

abbrev pub named_or_report : Option Text → Diagnostic → Parser → Text × Parser
named_or_report (some name) d p = (name, p)
named_or_report none d p = (codes "_error", report d p)

abbrev pub ident_diagnostic : Text → Span → Diagnostic
ident_diagnostic message span =
    with_fix_it
      (error (codes "GOF2002") message (codes "identifiers must start with a letter or underscore")
        span)
      (codes "replace this token with an identifier")

unfoldable pub expect_ident : Text → Parser → Text × Parser
expect_ident message p =
    let p' = advance p in
    named_or_report (ident_or_error p'.previous.kind) (ident_diagnostic message p'.previous.span) p'

abbrev pub member_or_error : TokenKind → Option Text
member_or_error (ident value) = some value
member_or_error true_kw = some (codes "true")
member_or_error false_kw = some (codes "false")
member_or_error _ = none

abbrev pub member_diagnostic : Text → Span → Diagnostic
member_diagnostic message span =
    with_fix_it
      (error (codes "GOF2002") message
        (codes "member names must be identifiers or supported keyword literals like `true`/`false`")
        span)
      (codes "replace this token with a valid member name")

unfoldable pub expect_member_name : Text → Parser → Text × Parser
expect_member_name message p =
    let p' = advance p in
    named_or_report (member_or_error p'.previous.kind) (member_diagnostic message p'.previous.span)
      p'
