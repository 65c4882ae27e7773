-- ===== src/Lexer/Line/Literals.antt =====
-- Literals: what can be written of strings and numbers, and what the lexer makes of it.
use gof_lang.Prelude.{
  ℕ, ◌+◌, ◌-◌, ◌^◌, ◌≡◌, refl, ◌∙◌, pos, true, false, [], ◌∷◌, ◌++◌, append_assoc, append-nil, Text,
  take_while, length, ◌==◌, ltb, decimal, digits_value-decimal, IsDigits, decimal-IsDigits,
  if◌then◌else◌, arith, ap, sym,
}
use gof_lang.Token.{string_literal, int_literal}
use gof_lang.Lexer.Chars.{is_ascii_digit, parse_i64_or_default}
use gof_lang.Lexer.Line.{number, emit, unescape, lex_string_from, lex_symbol, lex_word, lex_char}

-- How a character of a string can be written.
abbrev pub escape_char : ℕ → Text
escape_char c =
    if c == b'"'
    then b'\\' ∷ b'"' ∷ []
    else if c == b'\\'
    then b'\\' ∷ b'\\' ∷ []
    else if c == b'\n'
    then b'\\' ∷ b'n' ∷ []
    else if c == b'\t'
    then b'\\' ∷ b't' ∷ []
    else c ∷ []

abbrev pub escaped : Text → Text → Text
escaped [] rest = rest
escaped (c ∷ cs) rest = escape_char c ++ escaped cs rest

abbrev pub width_escaped : Text → ℕ
width_escaped [] = 0
width_escaped (c ∷ cs) = length (escape_char c) + width_escaped cs

lex_string_from-escape_char :
    (line base start index c : ℕ) (value rest : Text)
    → lex_string_from line base start false index value (escape_char c ++ rest)
      ≡ lex_string_from line base start false
          (index + length (escape_char c))
          (value ++ c ∷ [])
          rest
unfolding lex_string_from unescape
lex_string_from-escape_char line base start index c value rest = ground arith

lex_string_from-escaped :
    (line base start index : ℕ) (value v rest : Text)
    → lex_string_from line base start false index value (escaped v (b'"' ∷ rest))
      ≡ emit (string_literal (value ++ v)) (index + width_escaped v + 1 - start)
lex_string_from-escaped line base start index value [] rest =
    unfold lex_string_from in ground (arith, append-nil value)
lex_string_from-escaped line base start index value (c ∷ cs) rest =
    lex_string_from-escape_char line base start index c value _
    ∙ lex_string_from-escaped line base start (index + length (escape_char c)) (value ++ c ∷ []) cs
        rest
    ∙ ground (arith, append_assoc value (c ∷ []) cs)

-- Every text can be written as a string literal: with its quotes, backslashes, line ends and tabs
-- escaped and between quotes, the lexer reads back the text itself, up to the closing quote.
pub lex_char-escaped :
    (line base index : ℕ) (v rest : Text)
    → lex_char line base index b'"' (escaped v (b'"' ∷ rest))
      ≡ emit (string_literal v) (width_escaped v + 2)
unfolding lex_char
lex_char-escaped line base index v rest =
    lex_string_from-escaped line base index (index + 1) [] v rest
    ∙ ap (emit (string_literal v)) (omega arith)

lex_char-number :
    (line base index c : ℕ) (rest : Text)
    → is_ascii_digit c ≡ true
    → lex_char line base index c rest ≡ number (take_while is_ascii_digit (c ∷ rest))
unfolding lex_char lex_symbol lex_word
lex_char-number line base index c rest h = ground arith

-- The text does not go on with a digit.
abbrev pub StartsNoDigit : Text → Type 0
StartsNoDigit [] = Unit
StartsNoDigit (c ∷ _) = is_ascii_digit c ≡ false

take_while-IsDigits :
    (ds rest : Text)
    → IsDigits ds
    → StartsNoDigit rest
    → take_while is_ascii_digit (ds ++ rest) ≡ ds
take_while-IsDigits [] [] h k = refl
take_while-IsDigits [] (c ∷ rest) h k = rw k
take_while-IsDigits (d ∷ ds) rest h k = rw h.0 (ap (◌∷◌ d) (take_while-IsDigits ds rest h.1 k))

parse-decimal : (n : ℕ) → parse_i64_or_default (decimal n) ≡ pos (if ltb n (2 ^ 63) then n else 0)
unfolding parse_i64_or_default
parse-decimal n = rw digits_value-decimal (ground arith)

-- A number in decimal is read back if it is an `i64`, and is read as 0, with no diagnostic, if it
-- is too large for one.
pub lex_char-decimal :
    (line base index n c : ℕ) (cs rest : Text)
    → decimal n ≡ c ∷ cs
    → StartsNoDigit rest
    → lex_char line base index c (cs ++ rest)
      ≡ emit (int_literal (pos (if ltb n (2 ^ 63) then n else 0))) (length (decimal n))
lex_char-decimal line base index n c cs rest e h =
    let ds : IsDigits (c ∷ cs) = rw e at (decimal-IsDigits n) in
    lex_char-number line base index c (cs ++ rest) ds.0
    ∙ ap number (take_while-IsDigits (c ∷ cs) rest ds h ∙ sym e)
    ∙ ap (λ z. emit (int_literal z) (length (decimal n))) (parse-decimal n)
