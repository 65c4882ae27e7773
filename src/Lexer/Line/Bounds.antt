-- ===== src/Lexer/Line/Bounds.antt =====
-- The tokens of a line lie within it, in order, and do not overlap.
use gof_lang.Prelude.{
  ℕ, zero, suc, ◌+◌, ◌-◌, ◌≤◌, ◌<◌, ◌≡◌, refl, Bool, true, List, [], ◌∷◌, Option, none, some, Text,
  length, take_while, length-take_while, arith,
}
use gof_lang.Source.{span}
use gof_lang.Token.{TokenKind, Token, token}
use gof_lang.Lexer.Chars.{is_ascii_digit, is_ident_start, is_ident_continue}
use gof_lang.Lexer.Line.{
  Lexed, next_is, Action, skip, stop, emit, fail, lex_symbol, lex_char, add_token, lex_chars,
  lex_line,
}
use gof_lang.Lexer.Line.Cases.{lex_char_cases}

-- A token is pushed for at least one and at most `n` characters.
abbrev Fits : ℕ → Action → Type 0
Fits n (emit kind width) = (1 ≤ width) × (width ≤ n)
Fits n _ = Unit

abbrev SymbolFits : ℕ → Option (TokenKind × ℕ) → Type 0
SymbolFits n none = Unit
SymbolFits n (some (kind, width)) = (1 ≤ width) × (width ≤ n)

lex_symbol-Fits : (c : ℕ) (rest : Text) → SymbolFits (suc (length rest)) (lex_symbol c rest)
unfolding lex_symbol
lex_symbol-Fits c [] = ground arith
lex_symbol-Fits c (d ∷ rest) = ground arith

-- A run that begins with a character of its class is not empty.
length-take_while_bounds :
    (p : ℕ → Bool) (c : ℕ) (rest : Text)
    → p c ≡ true
    → (1 ≤ length (take_while p (c ∷ rest)))
      × (length (take_while p (c ∷ rest)) ≤ suc (length rest))
length-take_while_bounds p c rest h = rw h (omega arith, omega (arith, length-take_while p rest))

pub ident_start-continue : (c : ℕ) → is_ident_start c ≡ true → is_ident_continue c ≡ true
unfolding is_ident_start is_ident_continue
ident_start-continue c h = ground arith

lex_char-Fits :
    (line base index c : ℕ) (rest : Text)
    → Fits (suc (length rest)) (lex_char line base index c rest)
lex_char-Fits line base index c rest =
    lex_char_cases line base index c rest (Fits (suc (length rest))) tt tt (λ d h. tt)
      (λ h. two rest h) (λ v width h k. (h, k))
      (λ kind width found. rw found at (lex_symbol-Fits c rest))
      (λ digit. length-take_while_bounds is_ascii_digit c rest digit)
      (λ start. length-take_while_bounds is_ident_continue c rest (ident_start-continue c start))
  where
    two : (cs : Text) → next_is b'=' cs ≡ true → (1 ≤ 2) × (2 ≤ suc (length cs))
    two [] h = cc
    two (d ∷ cs) h = (omega arith, omega arith)

-- All on one line, each token from the end of the one before on, and up to `hi`.
abbrev pub AreOrdered : ℕ → ℕ → ℕ → List Token → Type 0
AreOrdered line lo hi [] = lo ≤ hi
AreOrdered line lo hi (t ∷ ts) =
    (t.span.line ≡ line)
    × (lo ≤ t.span.column)
    × (t.span.column < t.span.end_column)
    × AreOrdered line t.span.end_column hi ts

lex_chars-AreOrdered :
    (line base passed index : ℕ) (cs : Text) (lo hi : ℕ)
    → passed ≤ length cs
    → lo ≤ base + index + passed
    → base + index + length cs ≤ hi
    → AreOrdered line lo hi (lex_chars line base passed index cs).0
unfolding lex_chars
lex_chars-AreOrdered line base passed index [] lo hi h k m = omega arith
lex_chars-AreOrdered line base (suc passed) index (c ∷ cs) lo hi h k m =
    lex_chars-AreOrdered line base passed (index + 1) cs lo hi (omega arith) (omega arith)
      (omega arith)
lex_chars-AreOrdered line base zero index (c ∷ cs) lo hi h k m =
    (elim (lex_char line base index c cs)
        as (λ a.
          Fits (suc (length cs)) a
          → AreOrdered line lo hi
              (elim a as (λ _. Lexed) [
                | skip ↦ lex_chars line base zero (index + 1) cs
                | stop ↦ ([], none)
                | emit kind width ↦
                    add_token (token kind (span line (base + index) (base + index + width)))
                      (lex_chars line base (width - 1) (index + 1) cs)
                | fail diagnostic ↦ ([], some diagnostic)
              ]).0) [
                | skip ↦ λ _.
                    lex_chars-AreOrdered line base zero (index + 1) cs lo hi (omega arith)
                      (omega arith) (omega arith)
                | stop ↦ λ _. omega arith
                | emit kind width ↦ λ f. (
                  refl,
                  omega arith,
                  omega arith,
                  lex_chars-AreOrdered line base (width - 1) (index + 1) cs (base + index + width)
                      hi (omega arith) (omega arith) (omega arith),
                )
                | fail diagnostic ↦ λ _. omega arith
              ])
      (lex_char-Fits line base index c cs)

-- Each token of a line is on it, has at least one column, starts where the one before ends or
-- later, and ends within the line.
pub lex_line-AreOrdered :
    (line base : ℕ) (chars : Text)
    → AreOrdered line base (base + length chars) (lex_line line base chars).0
lex_line-AreOrdered line base chars =
    lex_chars-AreOrdered line base 0 0 chars base (base + length chars) (omega arith) (omega arith)
      (omega arith)
