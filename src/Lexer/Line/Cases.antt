-- ===== src/Lexer/Line/Cases.antt =====
-- The cases of `lex_char`, once for all that is proved about the tokens of a line.
use gof_lang.Prelude.{
  ℕ, suc, ◌+◌, ◌-◌, ◌≤◌, ◌<◌, ◌≡◌, refl, inl, inr, Bool, if_cases, length, Option-cases, true,
  false, [], ◌∷◌, some, Text, codes, take_while, ◌==◌, arith,
}
use gof_lang.Diagnostics.{Diagnostic}
use gof_lang.Token.{TokenKind, string_literal, bang_equal}
use gof_lang.Lexer.Chars.{is_ascii_digit, is_ident_start, is_ident_continue}
use gof_lang.Lexer.Line.{
  Action, skip, stop, emit, fail, next_is, unterminated, bang_diagnostic, unexpected,
  lex_string_from, lex_symbol, number, word, lex_word, lex_bang, lex_char,
}

-- Every diagnostic of a line has the code of an unexpected token.
abbrev pub IsUnexpected : Diagnostic → Type 0
IsUnexpected d = d.code ≡ codes "GOF2001"

module _ (line column : ℕ) (rest : Text) (P : Action → Type 0) where
  lex_word_cases :
      (c : ℕ)
      → ((d : Diagnostic) → IsUnexpected d → P (fail d))
      → (is_ascii_digit c ≡ true → P (number (take_while is_ascii_digit (c ∷ rest))))
      → (is_ident_start c ≡ true → P (word (take_while is_ident_continue (c ∷ rest))))
      → P (lex_word line column c rest)
  unfolding lex_word unexpected
  lex_word_cases c failing digits letters =
      if_cases P (is_ascii_digit c) digits
        λ _. if_cases P (is_ident_start c) letters λ _. failing (unexpected line column c) refl

  lex_bang_cases :
      ((d : Diagnostic) → IsUnexpected d → P (fail d))
      → (next_is b'=' rest ≡ true → P (emit bang_equal 2))
      → P (lex_bang line column rest)
  unfolding lex_bang bang_diagnostic
  lex_bang_cases failing bang =
      if_cases P (next_is b'=' rest) bang λ _. failing (bang_diagnostic line column) refl

pub lex_string_from_cases :
    (line base start : ℕ) (P : Action → Type 0)
    → ((d : Diagnostic) → IsUnexpected d → P (fail d))
    → (escaped : Bool) (index : ℕ) (value cs : Text)
    → ((v : Text) (end : ℕ)
        → index < end
        → end ≤ index + length cs
        → P (emit (string_literal v) (end - start)))
    → P (lex_string_from line base start escaped index value cs)
unfolding lex_string_from unterminated
lex_string_from_cases line base start P failing escaped index value [] strings =
    failing (unterminated line base start index) refl
lex_string_from_cases line base start P failing true index value (c ∷ cs) strings =
    lex_string_from_cases line base start P failing false (index + 1) _ cs
      λ v end h k. strings v end (omega arith) (omega arith)
lex_string_from_cases line base start P failing false index value (c ∷ cs) strings =
    if_cases P (c == b'"') (λ _. strings value (index + 1) (omega arith) (omega arith))
      λ _.
        lex_string_from_cases line base start P failing (c == b'\\') (index + 1) _ cs
          λ v end h k. strings v end (omega arith) (omega arith)

-- What the loop can do at a character, with what is known of the token that it pushes.
pub lex_char_cases :
    (line base index c : ℕ) (rest : Text) (P : Action → Type 0)
    → P skip
    → P stop
    → ((d : Diagnostic) → IsUnexpected d → P (fail d))
    → (next_is b'=' rest ≡ true → P (emit bang_equal 2))
    → ((v : Text) (width : ℕ)
        → 1 ≤ width
        → width ≤ suc (length rest)
        → P (emit (string_literal v) width))
    → ((kind : TokenKind) (width : ℕ)
        → lex_symbol c rest ≡ some (kind, width)
        → P (emit kind width))
    → (is_ascii_digit c ≡ true → P (number (take_while is_ascii_digit (c ∷ rest))))
    → (is_ident_start c ≡ true → P (word (take_while is_ident_continue (c ∷ rest))))
    → P (lex_char line base index c rest)
unfolding lex_char
lex_char_cases line base index c rest P skips stops failing bang strings symbols digits letters =
    if_cases P (c == b' ') (λ _. skips)
      λ _.
        if_cases P (c == b'#') (λ _. stops)
          λ _.
            if_cases P (c == b'!') (λ _. lex_bang_cases line (base + index) rest P failing bang)
              λ _.
                if_cases P (c == b'"')
                  (λ _.
                    lex_string_from_cases line base index P failing false (index + 1) [] rest
                      λ v end h k. strings v (end - index) (omega arith) (omega arith))
                  λ _. elim (Option-cases (lex_symbol c rest)) [
                    | inl no_symbol ↦
                        rw no_symbol
                          (lex_word_cases line (base + index) rest P c failing digits letters)
                    | inr ((kind, width), found) ↦ rw found (symbols kind width found)
                  ]
