-- ===== src/Token.antt =====
-- compiler/gof-compiler/src/token.rs: the tokens of the language.
use gof_lang.Prelude.{ℤ, Text}
use gof_lang.Source.{Span}

-- The words of the language end in `_kw`.
pub data TokenKind : Type 0 where
  module_kw import_kw test_kw fixture_kw fn_kw if_kw else_kw while_kw : TokenKind
  for_kw in_kw break_kw continue_kw go_kw return_kw struct_kw enum_kw : TokenKind
  protocol_kw match_kw async_kw await_kw select_kw default_kw defer_kw : TokenKind
  unsafe_kw mut_kw and_kw or_kw not_kw true_kw false_kw : TokenKind
  ident : Text → TokenKind
  int_literal : ℤ → TokenKind
  string_literal : Text → TokenKind
  l_paren r_paren l_bracket r_bracket l_brace r_brace dot colon comma : TokenKind
  equal equal_equal bang_equal less less_equal greater greater_equal : TokenKind
  question arrow plus minus star slash percent : TokenKind
  newline indent dedent eof : TokenKind

pub record Token : Type 0 where
  pub kind : TokenKind
  pub span : Span

abbrev pub token : TokenKind → Span → Token
token kind span = record { kind = kind; span = span }
