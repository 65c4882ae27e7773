-- ===== src/Lexer/Tests.antt =====
-- Runs of the lexer, and its theorems at concrete texts.
use gof_lang.Prelude.{
  ◌+◌, ◌^◌, ◌≡◌, refl, pos, List, [], ◌∷◌, ◌++◌, Option, none, some, String, Text, codes, map,
  lines, is_whitespace, text_eq, digits_value, decimal, decimal_onto, length, ltb, if◌then◌else◌,
}
use gof_lang.Token.{
  TokenKind, fn_kw, if_kw, ident, int_literal, string_literal, l_paren, r_paren, colon,
  greater_equal, equal, newline, indent, dedent, eof,
}
use gof_lang.Lexer.Chars.{
  word_kind, find_keyword, keywords, is_ident_start, is_ident_continue, parse_i64_or_default,
}
use gof_lang.Lexer.Line.{
  emit, lex_char, lex_chars, lex_line, lex_bang, lex_word, lex_symbol, lex_string_from, unescape,
}
use gof_lang.Lexer.Line.Bounds.{AreOrdered, lex_line-AreOrdered}
use gof_lang.Lexer.Line.Kinds.{IsLexed, lex_line-IsLexed}
use gof_lang.Lexer.Line.Literals.{escaped, width_escaped, lex_char-escaped, lex_char-decimal}
use gof_lang.Lexer.Lex.{
  LexResult, ok, err, lex, lex_lines, lex_source_line, layout, lex_rest, pop_indents, count_from,
  close_all, finish,
}
use gof_lang.Lexer.Lex.Layout.{IsSound, lex-IsSound}

kinds : Option LexResult → List TokenKind
kinds none = []
kinds (some (err ds)) = []
kinds (some (ok ts)) = map (λ t. t.kind) ts

run : String → List TokenKind
unfolding kinds lex lex_lines lex_source_line layout lex_rest pop_indents count_from close_all
    finish lex_chars lex_char lex_bang lex_word lex_symbol lex_string_from unescape word_kind
    find_keyword keywords is_ident_start is_ident_continue parse_i64_or_default digits_value lines
    is_whitespace text_eq
run s = kinds (lex (codes s))

run_blocks :
    run "fn f():\n    if x >= 10: # hi\n\n        y = \"a\\n\"\nz"
    ≡ fn_kw
      ∷ ident (codes "f")
      ∷ l_paren
      ∷ r_paren
      ∷ colon
      ∷ newline
      ∷ indent
      ∷ if_kw
      ∷ ident (codes "x")
      ∷ greater_equal
      ∷ int_literal (pos 10)
      ∷ colon
      ∷ newline
      ∷ indent
      ∷ ident (codes "y")
      ∷ equal
      ∷ string_literal (codes "a\n")
      ∷ newline
      ∷ dedent
      ∷ dedent
      ∷ ident (codes "z")
      ∷ newline
      ∷ eof
      ∷ []
unfolding run
run_blocks = refl

-- Indentation by three spaces is refused.
run_ragged : run "f:\n   x\n" ≡ []
unfolding run
run_ragged = refl

abbrev sample_line : Text
sample_line = codes "total = 12 + \"x\" # end"

abbrev sample_text : Text
sample_text = codes "fn f():\n    return 1\nfn g():\n    return 2\n"

lex_line-AreOrdered_example : AreOrdered 3 5 (5 + length sample_line) (lex_line 3 5 sample_line).0
lex_line-AreOrdered_example = lex_line-AreOrdered 3 5 sample_line

lex_line-IsLexed_example : IsLexed (lex_line 3 5 sample_line)
lex_line-IsLexed_example = lex_line-IsLexed 3 5 sample_line

lex_char-escaped_example :
    lex_char 1 1 4 b'"' (escaped (codes "a\"b\n") (b'"' ∷ codes " + 1"))
    ≡ emit (string_literal (codes "a\"b\n")) (width_escaped (codes "a\"b\n") + 2)
lex_char-escaped_example = lex_char-escaped 1 1 4 (codes "a\"b\n") (codes " + 1")

-- 2^63 is read as 0.
lex_char-decimal_example :
    lex_char 1 1 0 b'9' (codes "223372036854775808" ++ codes " ")
    ≡ emit
        (int_literal (pos (if ltb (2 ^ 63) (2 ^ 63) then 2 ^ 63 else 0)))
        (length (decimal (2 ^ 63)))
unfolding decimal decimal_onto
lex_char-decimal_example =
    lex_char-decimal 1 1 0 (2 ^ 63) b'9' (codes "223372036854775808") (codes " ") refl refl

lex-IsSound_example : (r : LexResult) × (lex sample_text ≡ some r) × IsSound r
lex-IsSound_example = lex-IsSound sample_text
