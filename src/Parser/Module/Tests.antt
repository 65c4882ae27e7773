-- ===== src/Parser/Module/Tests.antt =====
-- Runs of `lex` and `parse` on a small program, and the theorems at it.
use gof_lang.Prelude.{
  ◌+◌, ◌*◌, ◌≡◌, refl, pos, true, [], ◌∷◌, ◌++◌, List, none, some, Text, codes, length, lines,
  is_whitespace, text_eq, digits_value,
}
use gof_lang.Source.{span}
use gof_lang.Token.{
  Token, token, fn_kw, ident, l_paren, r_paren, colon, newline, indent, dedent, return_kw,
  int_literal, eof,
}
use gof_lang.Ast.{Expr, FunctionKind}
use gof_lang.Ast.Statement.{Stmt, Block}
use gof_lang.Ast.Item.{Function, Module}
use gof_lang.Lexer.Chars.{
  word_kind, find_keyword, keywords, is_ident_start, is_ident_continue, parse_i64_or_default,
}
use gof_lang.Lexer.Line.{lex_chars, lex_char, lex_word, lex_symbol}
use gof_lang.Lexer.Lex.{
  LexResult, lex, lex_lines, lex_source_line, layout, lex_rest, pop_indents, close_all, finish,
  count_from,
}
use gof_lang.Parser.State.{Parser, at_end, new_parser, split_eof, expect, expect_ident}
use gof_lang.Parser.Discriminant.{matches_kind}
use gof_lang.Parser.Expr.{parse_expr, operator}
use gof_lang.Parser.TypeRef.{parse_type_after}
use gof_lang.Parser.Statement.{parse_block, parse_return}
use gof_lang.Parser.Item.{parse_function, parse_opening, parse_receiver, parse_params}
use gof_lang.Parser.Progress.{size, Continues}
use gof_lang.Parser.Module.{
  ParseResult, parse, parse_module, empty_module, parse_items, parse_item, skip_newlines_onto,
}
use gof_lang.Parser.Module.Fuel.{parse_module-ends}
use gof_lang.Parser.Lexed.{IsAnswer, parse-answers}

abbrev program : Text
program = codes "fn f():\n    return 1\n"

abbrev body_tokens : List Token
body_tokens =
    token fn_kw (span 1 1 3)
    ∷ token (ident (codes "f")) (span 1 4 5)
    ∷ token l_paren (span 1 5 6)
    ∷ token r_paren (span 1 6 7)
    ∷ token colon (span 1 7 8)
    ∷ token newline (span 1 8 8)
    ∷ token indent (span 2 1 4)
    ∷ token return_kw (span 2 5 11)
    ∷ token (int_literal (pos 1)) (span 2 12 13)
    ∷ token newline (span 2 13 13)
    ∷ token dedent (span 2 1 1)
    ∷ []

abbrev program_tokens : List Token
program_tokens = body_tokens ++ token eof (span 2 1 1) ∷ []

lexes : lex program ≡ some (LexResult.ok program_tokens)
unfolding lex lex_lines lex_source_line layout lex_rest pop_indents count_from close_all finish
    lex_chars lex_char lex_word lex_symbol word_kind find_keyword keywords is_ident_start
    is_ident_continue parse_i64_or_default digits_value lines is_whitespace text_eq
lexes = refl

parse-answers_example :
    (r : ParseResult) × (parse (30 * length program_tokens + 29) program_tokens ≡ some r)
    × IsAnswer r
parse-answers_example = parse-answers program program_tokens lexes

abbrev before_eof : Parser
before_eof = new_parser body_tokens (token eof (span 2 1 1))

parse_module-ends_example :
    (r : Module × Parser) × (parse_module (30 * size before_eof + 29) before_eof ≡ some r)
    × (at_end r.1 ≡ true)
    × Continues before_eof r.1
parse_module-ends_example =
    parse_module-ends before_eof refl
      (refl, (refl, (refl, (refl, (refl, (refl, (refl, (refl, (refl, (refl, (refl, tt)))))))))))

-- What is parsed, without positions of the parts: one function `f` that returns 1.
abbrev sample_function : Function
sample_function = record {
  kind = FunctionKind.function;
  fixture_scope = none;
  receiver_type = none;
  name = codes "f";
  params = [];
  return_type = none;
  body = Block.cons (Stmt.return (Expr.int (pos 1) (span 2 12 13)) (span 2 5 11)) Block.nil;
  span = span 1 1 3;
  source_path = [];
}

parses :
    parse 100 program_tokens
    ≡ some (ParseResult.ok (record empty_module { functions = sample_function ∷ [] }))
unfolding parse split_eof parse_items skip_newlines_onto parse_item parse_function parse_opening
    parse_receiver parse_params parse_type_after parse_block parse_return parse_expr operator expect
    expect_ident matches_kind
parses = refl
