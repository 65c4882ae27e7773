-- ===== src/Parser/Discriminant.antt =====
-- compiler/gof-compiler/src/ast.rs: `TokenDiscriminant`, the kinds that the parser asks for.
use gof_lang.Prelude.{◌+◌, Bool, true, false, ℤ, pos, negsuc, ◌∷◌, ◌++◌, Text, codes, decimal}
use gof_lang.Token.{TokenKind}

pub data TokenDiscriminant : Type 0 where
  module_kw import_kw struct_kw enum_kw test_kw fixture_kw fn_kw if_kw : TokenDiscriminant
  else_kw while_kw for_kw in_kw break_kw continue_kw match_kw select_kw : TokenDiscriminant
  default_kw go_kw await_kw and_kw or_kw not_kw return_kw mut_kw : TokenDiscriminant
  l_paren r_paren l_bracket r_bracket r_brace dot colon comma : TokenDiscriminant
  equal equal_equal bang_equal less less_equal greater greater_equal question : TokenDiscriminant
  arrow plus minus star slash percent newline indent : TokenDiscriminant
  dedent eof : TokenDiscriminant

-- `TokenDiscriminant::matches`
unfoldable pub matches_kind : TokenDiscriminant → TokenKind → Bool
matches_kind TokenDiscriminant.module_kw TokenKind.module_kw = true
matches_kind TokenDiscriminant.import_kw TokenKind.import_kw = true
matches_kind TokenDiscriminant.struct_kw TokenKind.struct_kw = true
matches_kind TokenDiscriminant.enum_kw TokenKind.enum_kw = true
matches_kind TokenDiscriminant.test_kw TokenKind.test_kw = true
matches_kind TokenDiscriminant.fixture_kw TokenKind.fixture_kw = true
matches_kind TokenDiscriminant.fn_kw TokenKind.fn_kw = true
matches_kind TokenDiscriminant.if_kw TokenKind.if_kw = true
matches_kind TokenDiscriminant.else_kw TokenKind.else_kw = true
matches_kind TokenDiscriminant.while_kw TokenKind.while_kw = true
matches_kind TokenDiscriminant.for_kw TokenKind.for_kw = true
matches_kind TokenDiscriminant.in_kw TokenKind.in_kw = true
matches_kind TokenDiscriminant.break_kw TokenKind.break_kw = true
matches_kind TokenDiscriminant.continue_kw TokenKind.continue_kw = true
matches_kind TokenDiscriminant.match_kw TokenKind.match_kw = true
matches_kind TokenDiscriminant.select_kw TokenKind.select_kw = true
matches_kind TokenDiscriminant.default_kw TokenKind.default_kw = true
matches_kind TokenDiscriminant.go_kw TokenKind.go_kw = true
matches_kind TokenDiscriminant.await_kw TokenKind.await_kw = true
matches_kind TokenDiscriminant.and_kw TokenKind.and_kw = true
matches_kind TokenDiscriminant.or_kw TokenKind.or_kw = true
matches_kind TokenDiscriminant.not_kw TokenKind.not_kw = true
matches_kind TokenDiscriminant.return_kw TokenKind.return_kw = true
matches_kind TokenDiscriminant.mut_kw TokenKind.mut_kw = true
matches_kind TokenDiscriminant.l_paren TokenKind.l_paren = true
matches_kind TokenDiscriminant.r_paren TokenKind.r_paren = true
matches_kind TokenDiscriminant.l_bracket TokenKind.l_bracket = true
matches_kind TokenDiscriminant.r_bracket TokenKind.r_bracket = true
matches_kind TokenDiscriminant.r_brace TokenKind.r_brace = true
matches_kind TokenDiscriminant.dot TokenKind.dot = true
matches_kind TokenDiscriminant.colon TokenKind.colon = true
matches_kind TokenDiscriminant.comma TokenKind.comma = true
matches_kind TokenDiscriminant.equal TokenKind.equal = true
matches_kind TokenDiscriminant.equal_equal TokenKind.equal_equal = true
matches_kind TokenDiscriminant.bang_equal TokenKind.bang_equal = true
matches_kind TokenDiscriminant.less TokenKind.less = true
matches_kind TokenDiscriminant.less_equal TokenKind.less_equal = true
matches_kind TokenDiscriminant.greater TokenKind.greater = true
matches_kind TokenDiscriminant.greater_equal TokenKind.greater_equal = true
matches_kind TokenDiscriminant.question TokenKind.question = true
matches_kind TokenDiscriminant.arrow TokenKind.arrow = true
matches_kind TokenDiscriminant.plus TokenKind.plus = true
matches_kind TokenDiscriminant.minus TokenKind.minus = true
matches_kind TokenDiscriminant.star TokenKind.star = true
matches_kind TokenDiscriminant.slash TokenKind.slash = true
matches_kind TokenDiscriminant.percent TokenKind.percent = true
matches_kind TokenDiscriminant.newline TokenKind.newline = true
matches_kind TokenDiscriminant.indent TokenKind.indent = true
matches_kind TokenDiscriminant.dedent TokenKind.dedent = true
matches_kind TokenDiscriminant.eof TokenKind.eof = true
matches_kind _ _ = false

unfoldable pub as_hint : TokenDiscriminant → Text
as_hint TokenDiscriminant.module_kw = codes "`module`"
as_hint TokenDiscriminant.import_kw = codes "`import`"
as_hint TokenDiscriminant.struct_kw = codes "`struct`"
as_hint TokenDiscriminant.enum_kw = codes "`enum`"
as_hint TokenDiscriminant.test_kw = codes "`test`"
as_hint TokenDiscriminant.fixture_kw = codes "`fixture`"
as_hint TokenDiscriminant.fn_kw = codes "`fn`"
as_hint TokenDiscriminant.if_kw = codes "`if`"
as_hint TokenDiscriminant.else_kw = codes "`else`"
as_hint TokenDiscriminant.while_kw = codes "`while`"
as_hint TokenDiscriminant.for_kw = codes "`for`"
as_hint TokenDiscriminant.in_kw = codes "`in`"
as_hint TokenDiscriminant.break_kw = codes "`break`"
as_hint TokenDiscriminant.continue_kw = codes "`continue`"
as_hint TokenDiscriminant.match_kw = codes "`match`"
as_hint TokenDiscriminant.select_kw = codes "`select`"
as_hint TokenDiscriminant.default_kw = codes "`default`"
as_hint TokenDiscriminant.go_kw = codes "`go`"
as_hint TokenDiscriminant.await_kw = codes "`await`"
as_hint TokenDiscriminant.and_kw = codes "`and`"
as_hint TokenDiscriminant.or_kw = codes "`or`"
as_hint TokenDiscriminant.not_kw = codes "`not`"
as_hint TokenDiscriminant.return_kw = codes "`return`"
as_hint TokenDiscriminant.mut_kw = codes "`mut`"
as_hint TokenDiscriminant.l_paren = codes "`(`"
as_hint TokenDiscriminant.r_paren = codes "`)`"
as_hint TokenDiscriminant.l_bracket = codes "`[`"
as_hint TokenDiscriminant.r_bracket = codes "`]`"
as_hint TokenDiscriminant.r_brace = codes "`}`"
as_hint TokenDiscriminant.dot = codes "`.`"
as_hint TokenDiscriminant.colon = codes "`:`"
as_hint TokenDiscriminant.comma = codes "`,`"
as_hint TokenDiscriminant.equal = codes "`=`"
as_hint TokenDiscriminant.equal_equal = codes "`==`"
as_hint TokenDiscriminant.bang_equal = codes "`!=`"
as_hint TokenDiscriminant.less = codes "`<`"
as_hint TokenDiscriminant.less_equal = codes "`<=`"
as_hint TokenDiscriminant.greater = codes "`>`"
as_hint TokenDiscriminant.greater_equal = codes "`>=`"
as_hint TokenDiscriminant.question = codes "`?`"
as_hint TokenDiscriminant.arrow = codes "`->`"
as_hint TokenDiscriminant.plus = codes "`+`"
as_hint TokenDiscriminant.minus = codes "`-`"
as_hint TokenDiscriminant.star = codes "`*`"
as_hint TokenDiscriminant.slash = codes "`/`"
as_hint TokenDiscriminant.percent = codes "`%`"
as_hint TokenDiscriminant.newline = codes "a newline"
as_hint TokenDiscriminant.indent = codes "an indented block"
as_hint TokenDiscriminant.dedent = codes "a dedent"
as_hint TokenDiscriminant.eof = codes "end of file"

-- `{}` of an `i64`
abbrev pub signed_decimal : ℤ → Text
signed_decimal (pos n) = decimal n
signed_decimal (negsuc n) = b'-' ∷ decimal (n + 1)

-- The last arm of `token_debug_name` prints the name that the variant has in the source.
unfoldable pub token_debug_name : TokenKind → Text
token_debug_name (TokenKind.ident value) = codes "identifier `" ++ (value ++ codes "`")
token_debug_name (TokenKind.int_literal value) =
    codes "int literal `" ++ (signed_decimal value ++ codes "`")
token_debug_name (TokenKind.string_literal value) = codes "string literal `" ++ (value ++ codes "`")
token_debug_name TokenKind.true_kw = codes "`true`"
token_debug_name TokenKind.false_kw = codes "`false`"
token_debug_name TokenKind.module_kw = codes "Module"
token_debug_name TokenKind.import_kw = codes "Import"
token_debug_name TokenKind.struct_kw = codes "Struct"
token_debug_name TokenKind.enum_kw = codes "Enum"
token_debug_name TokenKind.test_kw = codes "Test"
token_debug_name TokenKind.fixture_kw = codes "Fixture"
token_debug_name TokenKind.fn_kw = codes "Fn"
token_debug_name TokenKind.if_kw = codes "If"
token_debug_name TokenKind.else_kw = codes "Else"
token_debug_name TokenKind.while_kw = codes "While"
token_debug_name TokenKind.for_kw = codes "For"
token_debug_name TokenKind.in_kw = codes "In"
token_debug_name TokenKind.break_kw = codes "Break"
token_debug_name TokenKind.continue_kw = codes "Continue"
token_debug_name TokenKind.match_kw = codes "Match"
token_debug_name TokenKind.select_kw = codes "Select"
token_debug_name TokenKind.default_kw = codes "Default"
token_debug_name TokenKind.go_kw = codes "Go"
token_debug_name TokenKind.await_kw = codes "Await"
token_debug_name TokenKind.and_kw = codes "And"
token_debug_name TokenKind.or_kw = codes "Or"
token_debug_name TokenKind.not_kw = codes "Not"
token_debug_name TokenKind.return_kw = codes "Return"
token_debug_name TokenKind.mut_kw = codes "Mut"
token_debug_name TokenKind.l_paren = codes "LParen"
token_debug_name TokenKind.r_paren = codes "RParen"
token_debug_name TokenKind.l_bracket = codes "LBracket"
token_debug_name TokenKind.r_bracket = codes "RBracket"
token_debug_name TokenKind.r_brace = codes "RBrace"
token_debug_name TokenKind.dot = codes "Dot"
token_debug_name TokenKind.colon = codes "Colon"
token_debug_name TokenKind.comma = codes "Comma"
token_debug_name TokenKind.equal = codes "Equal"
token_debug_name TokenKind.equal_equal = codes "EqualEqual"
token_debug_name TokenKind.bang_equal = codes "BangEqual"
token_debug_name TokenKind.less = codes "Less"
token_debug_name TokenKind.less_equal = codes "LessEqual"
token_debug_name TokenKind.greater = codes "Greater"
token_debug_name TokenKind.greater_equal = codes "GreaterEqual"
token_debug_name TokenKind.question = codes "Question"
token_debug_name TokenKind.arrow = codes "Arrow"
token_debug_name TokenKind.plus = codes "Plus"
token_debug_name TokenKind.minus = codes "Minus"
token_debug_name TokenKind.star = codes "Star"
token_debug_name TokenKind.slash = codes "Slash"
token_debug_name TokenKind.percent = codes "Percent"
token_debug_name TokenKind.newline = codes "Newline"
token_debug_name TokenKind.indent = codes "Indent"
token_debug_name TokenKind.dedent = codes "Dedent"
token_debug_name TokenKind.eof = codes "Eof"
token_debug_name TokenKind.l_brace = codes "LBrace"
token_debug_name TokenKind.protocol_kw = codes "Protocol"
token_debug_name TokenKind.async_kw = codes "Async"
token_debug_name TokenKind.defer_kw = codes "Defer"
token_debug_name TokenKind.unsafe_kw = codes "Unsafe"
