-- ===== src/Parser/Tests.antt =====
-- Runs of the lexer and the parser of expressions, and its theorems at a text.
use gof_lang.Prelude.{ℕ, ◌≤◌, ◌+◌, ◌*◌, ◌≡◌, refl, pos, [], ◌∷◌, Option, none, some}
use gof_lang.Source.{span}
use gof_lang.Token.{token, int_literal, plus, star, newline, eof}
use gof_lang.Ast.{BinaryOp, Expr}
use gof_lang.Parser.Discriminant.{matches_kind}
use gof_lang.Parser.State.{advance, Parser, new_parser, expect}
use gof_lang.Parser.Progress.{size, Continues}
use gof_lang.Parser.Expr.{parse_expr, operator}
use gof_lang.Parser.Expr.Fuel.{parse_expr-ends}
use gof_lang.Parser.Print.{print, erase, no_span, Reads}
use gof_lang.Parser.Print.Tokens.{closer-Quiet}
use gof_lang.Parser.Print.Correct.{parse_expr-print}

-- The tokens of `1 + 2 * 3`.
abbrev sum : Parser
sum =
    new_parser
      (token (int_literal (pos 1)) (span 1 1 2)
        ∷ token plus (span 1 3 4)
        ∷ token (int_literal (pos 2)) (span 1 5 6)
        ∷ token star (span 1 7 8)
        ∷ token (int_literal (pos 3)) (span 1 9 10)
        ∷ token newline (span 1 10 10)
        ∷ [])
      (token eof (span 1 1 1))

map_result : Option (Expr × Parser) → Option Expr
map_result none = none
map_result (some (e, _)) = some e

parses_product_first :
    map_result (parse_expr 200 sum)
    ≡ some (
        Expr.binary
          (Expr.int (pos 1) (span 1 1 2))
          BinaryOp.add
          (Expr.binary
            (Expr.int (pos 2) (span 1 5 6))
            BinaryOp.mul
            (Expr.int (pos 3) (span 1 9 10))
            (span 1 5 10))
          (span 1 1 10))
unfolding map_result parse_expr operator matches_kind expect
parses_product_first = refl

parse_expr-ends_example :
    (r : Expr × Parser) × (parse_expr (30 * size sum + 16) sum ≡ some r) × Continues sum r.1
parse_expr-ends_example = parse_expr-ends sum refl

abbrev tree : Expr
tree =
    Expr.binary (Expr.int (pos 1) no_span) BinaryOp.add
      (Expr.binary (Expr.int (pos 2) no_span) BinaryOp.mul (Expr.int (pos 3) no_span) no_span)
      no_span

abbrev after_sum : Parser
after_sum = advance (advance (advance (advance (advance sum))))

sum-Reads : Reads sum (print tree) after_sum
unfolding print
sum-Reads = (
  (_, _, refl, refl),
  ((_, _, refl, refl), ((_, _, refl, refl), ((_, _, refl, refl), ((_, _, refl, refl), refl)))),
)

parse_expr-print_example :
    (r : Expr) × (erase r ≡ erase tree)
    × (N : ℕ) × ((n : ℕ) → N ≤ n → parse_expr n sum ≡ some (r, after_sum))
parse_expr-print_example =
    parse_expr-print tree sum after_sum sum-Reads
      (closer-Quiet newline after_sum refl (_, _, refl, refl))
