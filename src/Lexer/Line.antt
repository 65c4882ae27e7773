-- ===== src/Lexer/Line.antt =====
-- compiler/gof-compiler/src/lexer.rs: `lex_line` and `lex_string`.
-- `lex_char` is the body of the loop of `lex_line`: what it does at `chars[index]`, which is the
-- first character of the text. Where the source then sets `index += n`, `lex_chars` walks over the
-- next n characters, with the count of those still to be passed over.
pub mod Cases
pub mod Bounds
pub mod Kinds
pub mod Literals
use gof_lang.Prelude.{
  ℕ, zero, suc, ◌+◌, ◌-◌, Bool, true, false, List, [], ◌∷◌, ◌++◌, Option, none, some, Text, codes,
  length, take_while, ◌==◌, if◌then◌else◌,
}
use gof_lang.Source.{span}
use gof_lang.Diagnostics.{Diagnostic, error, with_fix_it}
use gof_lang.Token.{
  TokenKind, Token, token, int_literal, string_literal, l_paren, r_paren, l_bracket, r_bracket,
  l_brace, r_brace, dot, colon, comma, equal, equal_equal, bang_equal, less, less_equal, greater,
  greater_equal, question, arrow, plus, minus, star, slash, percent,
}
use gof_lang.Lexer.Chars.{
  is_ascii_digit, is_ident_start, is_ident_continue, parse_i64_or_default, word_kind,
}

-- What one round of the loop does: it moves on by one character, ends the line, pushes a token of
-- so many characters, or reports an error and returns.
pub data Action : Type 0 where
  skip stop : Action
  emit : TokenKind → ℕ → Action
  fail : Diagnostic → Action

-- `matches!(chars.get(index + 1), Some(next))`
abbrev pub next_is : ℕ → Text → Bool
next_is next [] = false
next_is next (c ∷ _) = c == next

unfoldable pub unescape : ℕ → ℕ
unescape c = if c == b'"' then b'"' else if c == b'n' then b'\n' else if c == b't' then b'\t' else c

-- `lex_string` from `index` on. The flag says that the character before was a backslash. At the
-- end of the line `index` is `chars.len()`.
unfoldable pub unterminated : ℕ → ℕ → ℕ → ℕ → Diagnostic
unterminated line_number base_column start index =
    with_fix_it
      (error (codes "GOF2001") (codes "unterminated string literal")
        (codes "string literals must end on the same line with a closing quote")
        (span line_number (base_column + start) (base_column + index)))
      (codes "add a closing double quote")

unfoldable pub lex_string_from : ℕ → ℕ → ℕ → Bool → ℕ → Text → Text → Action
lex_string_from line_number base_column start escaped index value [] =
    fail (unterminated line_number base_column start index)
lex_string_from line_number base_column start true index value (c ∷ cs) =
    lex_string_from line_number base_column start false (index + 1) (value ++ unescape c ∷ []) cs
lex_string_from line_number base_column start false index value (c ∷ cs) =
    let backslash = c == b'\\' in
    let rest =
      lex_string_from line_number base_column start backslash (index + 1)
        (if backslash then value else value ++ c ∷ []) cs in
    if c == b'"' then emit (string_literal value) (index + 1 - start) else rest

abbrev pub lex_string : ℕ → ℕ → ℕ → Text → Action
lex_string line_number base_column start rest =
    lex_string_from line_number base_column start false (start + 1) [] rest

unfoldable pub bang_diagnostic : ℕ → ℕ → Diagnostic
bang_diagnostic line_number column =
    with_fix_it
      (error (codes "GOF2001") (codes "unexpected character `!`")
        (codes "use `!=` for inequality comparisons") (span line_number column (column + 1)))
      (codes "replace `!` with `!=` or remove it")

unfoldable pub unexpected : ℕ → ℕ → ℕ → Diagnostic
unexpected line_number column c =
    error (codes "GOF2001") (codes "unexpected character `" ++ c ∷ codes "`")
      (codes "the bootstrap lexer only accepts gof syntax tokens")
      (span line_number column (column + 1))

-- The tokens of one or two characters.
unfoldable pub lex_operator : ℕ → Text → Option (TokenKind × ℕ)
lex_operator c rest =
    if c == b'='
    then some (if next_is b'=' rest then (equal_equal, 2) else (equal, 1))
    else if c == b'<'
    then some (if next_is b'=' rest then (less_equal, 2) else (less, 1))
    else if c == b'>'
    then some (if next_is b'=' rest then (greater_equal, 2) else (greater, 1))
    else if c == b'?'
    then some (question, 1)
    else if c == b'+'
    then some (plus, 1)
    else if c == b'-'
    then some (if next_is b'>' rest then (arrow, 2) else (minus, 1))
    else if c == b'*'
    then some (star, 1)
    else if c == b'/'
    then some (slash, 1)
    else if c == b'%'
    then some (percent, 1)
    else none

unfoldable pub lex_symbol : ℕ → Text → Option (TokenKind × ℕ)
unfolding lex_operator
lex_symbol c rest =
    if c == b'('
    then some (l_paren, 1)
    else if c == b')'
    then some (r_paren, 1)
    else if c == b'['
    then some (l_bracket, 1)
    else if c == b']'
    then some (r_bracket, 1)
    else if c == b'{'
    then some (l_brace, 1)
    else if c == b'}'
    then some (r_brace, 1)
    else if c == b'.'
    then some (dot, 1)
    else if c == b':'
    then some (colon, 1)
    else if c == b','
    then some (comma, 1)
    else lex_operator c rest

-- A number, a word, and what is no token.
abbrev pub number : Text → Action
number digits = emit (int_literal (parse_i64_or_default digits)) (length digits)

abbrev pub word : Text → Action
word letters = emit (word_kind letters) (length letters)

unfoldable pub lex_word : ℕ → ℕ → ℕ → Text → Action
lex_word line_number column c rest =
    if is_ascii_digit c
    then number (take_while is_ascii_digit (c ∷ rest))
    else if is_ident_start c
    then word (take_while is_ident_continue (c ∷ rest))
    else fail (unexpected line_number column c)

unfoldable pub lex_bang : ℕ → ℕ → Text → Action
lex_bang line_number column rest =
    if next_is b'=' rest then emit bang_equal 2 else fail (bang_diagnostic line_number column)

-- The `match character`, with `character = chars[index]`; the arms exclude one another.
unfoldable pub lex_char : ℕ → ℕ → ℕ → ℕ → Text → Action
lex_char line_number base_column index c rest =
    let column = base_column + index in
    if c == b' '
    then skip
    else if c == b'#'
    then stop
    else if c == b'!'
    then lex_bang line_number column rest
    else if c == b'"'
    then lex_string line_number base_column index rest
    else elim (lex_symbol c rest) [
      | some (kind, width) ↦ emit kind width
      | none ↦ lex_word line_number column c rest
    ]

-- What `lex_line` pushes to the tokens, and the diagnostic that it pushes if it gives up.
abbrev pub Lexed : Type 0
Lexed = List Token × Option Diagnostic

abbrev pub add_token : Token → Lexed → Lexed
add_token t (ts, failure) = (t ∷ ts, failure)

unfoldable pub lex_chars : ℕ → ℕ → ℕ → ℕ → Text → Lexed
lex_chars line_number base_column passed index [] = ([], none)
lex_chars line_number base_column (suc passed) index (c ∷ cs) =
    lex_chars line_number base_column passed (index + 1) cs
lex_chars line_number base_column zero index (c ∷ cs) =
    elim (lex_char line_number base_column index c cs) [
      | skip ↦ lex_chars line_number base_column zero (index + 1) cs
      | stop ↦ ([], none)
      | emit kind width ↦
          add_token
            (token kind (span line_number (base_column + index) (base_column + index + width)))
            (lex_chars line_number base_column (width - 1) (index + 1) cs)
      | fail diagnostic ↦ ([], some diagnostic)
    ]

abbrev pub lex_line : ℕ → ℕ → Text → Lexed
lex_line line_number base_column chars = lex_chars line_number base_column 0 0 chars
