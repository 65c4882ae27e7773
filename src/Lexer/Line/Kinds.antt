-- ===== src/Lexer/Line/Kinds.antt =====
-- What the tokens of a line can be, and with which code a line fails.
use gof_lang.Prelude.{
  ℕ, zero, suc, ◌+◌, ◌-◌, ◌<◌, ◌^◌, ◌≡◌, refl, pos, negsuc, Bool, true, List, [], ◌∷◌, Option, none,
  some, Text, All, take_while, text_eq, ltb, digits_value, if_cases, arith,
}
use gof_lang.Source.{span}
use gof_lang.Token.{TokenKind, Token, token, ident, int_literal, newline, indent, dedent, eof}
use gof_lang.Lexer.Chars.{
  is_ascii_digit, is_ident_start, is_ident_continue, parse_i64_or_default, keywords, find_keyword,
  word_kind,
}
use gof_lang.Lexer.Line.{
  Lexed, Action, skip, stop, emit, fail, lex_symbol, lex_char, add_token, lex_chars, lex_line,
}
use gof_lang.Lexer.Line.Cases.{IsUnexpected, lex_char_cases}
use gof_lang.Lexer.Line.Bounds.{ident_start-continue}

abbrev pub IsIdentifier : Text → Type 0
IsIdentifier [] = ⊥
IsIdentifier (c ∷ cs) = (is_ident_start c ≡ true) × All (λ d. is_ident_continue d ≡ true) cs

-- An identifier is no word of the language, a number is an `i64` that is not negative, and the
-- tokens of the layout do not stand within a line.
abbrev pub IsLineKind : TokenKind → Type 0
IsLineKind (ident w) = IsIdentifier w × (find_keyword w keywords ≡ none)
IsLineKind (int_literal (pos n)) = n < 2 ^ 63
IsLineKind (int_literal (negsuc n)) = ⊥
IsLineKind newline = ⊥
IsLineKind indent = ⊥
IsLineKind dedent = ⊥
IsLineKind eof = ⊥
IsLineKind _ = Unit

abbrev pub IsLineAction : Action → Type 0
IsLineAction (emit kind width) = IsLineKind kind
IsLineAction (fail d) = IsUnexpected d
IsLineAction _ = Unit

take_while-All : (p : ℕ → Bool) (cs : Text) → All (λ d. p d ≡ true) (take_while p cs)
take_while-All p [] = tt
take_while-All p (c ∷ cs) =
    if_cases (All (λ d. p d ≡ true)) (p c) (λ h. (h, take_while-All p cs)) (λ _. tt)

take_while-IsIdentifier :
    (c : ℕ) (rest : Text)
    → is_ident_start c ≡ true
    → IsIdentifier (take_while is_ident_continue (c ∷ rest))
take_while-IsIdentifier c rest h =
    rw (ident_start-continue c h) (h, take_while-All is_ident_continue rest)

abbrev IsFoundKind : Option TokenKind → Type 0
IsFoundKind none = Unit
IsFoundKind (some kind) = IsLineKind kind

find_keyword-IsFoundKind :
    (w : Text) (table : List (Text × TokenKind))
    → All (λ e. IsLineKind e.1) table
    → IsFoundKind (find_keyword w table)
unfolding find_keyword
find_keyword-IsFoundKind w [] h = tt
find_keyword-IsFoundKind w ((k, kind) ∷ table) h =
    if_cases IsFoundKind (text_eq w k) (λ _. h.0) (λ _. find_keyword-IsFoundKind w table h.1)

keywords-IsFoundKind : (w : Text) → IsFoundKind (find_keyword w keywords)
keywords-IsFoundKind w = find_keyword-IsFoundKind w keywords (unfold keywords in omega arith)

word_kind-IsLineKind : (w : Text) → IsIdentifier w → IsLineKind (word_kind w)
unfolding word_kind
word_kind-IsLineKind w h = go (find_keyword w keywords) refl (keywords-IsFoundKind w)
  where
    go :
        (o : Option TokenKind)
        → find_keyword w keywords ≡ o
        → IsFoundKind o
        → IsLineKind (elim o [ none ↦ ident w | some kind ↦ kind ])
    go none e f = (h, e)
    go (some kind) e f = f

parse-IsLineKind : (digits : Text) → IsLineKind (int_literal (parse_i64_or_default digits))
unfolding parse_i64_or_default
parse-IsLineKind digits =
    if_cases (λ z. IsLineKind (int_literal z)) (ltb (digits_value 0 digits) (2 ^ 63))
      (λ h. ground arith) (λ _. omega arith)

abbrev IsFoundSymbol : Option (TokenKind × ℕ) → Type 0
IsFoundSymbol none = Unit
IsFoundSymbol (some (kind, width)) = IsLineKind kind

lex_symbol-IsFoundSymbol : (c : ℕ) (rest : Text) → IsFoundSymbol (lex_symbol c rest)
unfolding lex_symbol
lex_symbol-IsFoundSymbol c [] = ground arith
lex_symbol-IsFoundSymbol c (d ∷ rest) = ground arith

lex_char-IsLineAction :
    (line base index c : ℕ) (rest : Text) → IsLineAction (lex_char line base index c rest)
lex_char-IsLineAction line base index c rest =
    lex_char_cases line base index c rest IsLineAction tt tt (λ d h. h) (λ h. tt)
      (λ v width h k. tt) (λ kind width found. rw found at (lex_symbol-IsFoundSymbol c rest))
      (λ digit. parse-IsLineKind (take_while is_ascii_digit (c ∷ rest)))
      (λ start. word_kind-IsLineKind _ (take_while-IsIdentifier c rest start))

abbrev pub IsLexed : Lexed → Type 0
IsLexed (ts, none) = All (λ t. IsLineKind t.kind) ts
IsLexed (ts, some d) = All (λ t. IsLineKind t.kind) ts × IsUnexpected d

add_token-IsLexed :
    (t : Token) (l : Lexed) → IsLineKind t.kind → IsLexed l → IsLexed (add_token t l)
add_token-IsLexed t (ts, none) h k = (h, k)
add_token-IsLexed t (ts, some d) h k = ((h, k.0), k.1)

lex_chars-IsLexed :
    (line base passed index : ℕ) (cs : Text) → IsLexed (lex_chars line base passed index cs)
unfolding lex_chars
lex_chars-IsLexed line base passed index [] = tt
lex_chars-IsLexed line base (suc passed) index (c ∷ cs) =
    lex_chars-IsLexed line base passed (index + 1) cs
lex_chars-IsLexed line base zero index (c ∷ cs) =
    (elim (lex_char line base index c cs)
        as (λ a.
          IsLineAction a
          → IsLexed (elim a as (λ _. Lexed) [
            | skip ↦ lex_chars line base zero (index + 1) cs
            | stop ↦ ([], none)
            | emit kind width ↦
                add_token (token kind (span line (base + index) (base + index + width)))
                  (lex_chars line base (width - 1) (index + 1) cs)
            | fail diagnostic ↦ ([], some diagnostic)
          ])) [
            | skip ↦ λ _. lex_chars-IsLexed line base zero (index + 1) cs
            | stop ↦ λ _. tt
            | emit kind width ↦ λ f.
                add_token-IsLexed (token kind (span line (base + index) (base + index + width))) _ f
                  (lex_chars-IsLexed line base (width - 1) (index + 1) cs)
            | fail diagnostic ↦ λ f. (tt, f)
          ])
      (lex_char-IsLineAction line base index c cs)

-- Every token of a line is one that can stand there: an identifier begins with a letter or `_`,
-- goes on with letters, digits and `_` and is no word of the language; a number lies below 2^63;
-- and no token of the layout stands among them. A line that is given up has code GOF2001.
pub lex_line-IsLexed : (line base : ℕ) (chars : Text) → IsLexed (lex_line line base chars)
lex_line-IsLexed line base chars = lex_chars-IsLexed line base 0 0 chars
