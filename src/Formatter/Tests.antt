-- ===== src/Formatter/Tests.antt =====
-- Runs of the formatter, and its theorems at `(1 + 2) * 3` and at a block.
use gof_lang.Prelude.{◌≡◌, ◌≢◌, refl, pos, [], ◌∷◌, ◌++◌, Text, codes, decimal, decimal_onto, none}
use gof_lang.Ast.{BinaryOp, Expr, Exprs}
use gof_lang.Ast.{FunctionKind}
use gof_lang.Ast.Statement.{Stmt, Block}
use gof_lang.Ast.Item.{Module}
use gof_lang.Parser.Module.{empty_module}
use gof_lang.Lexer.Lex.{count_indent}
use gof_lang.Formatter.{format_expr}
use gof_lang.Formatter.Statement.{indentation, format_block}
use gof_lang.Formatter.Module.{format_module}
use gof_lang.Formatter.Layout.{unlines, block_lines}
use gof_lang.Formatter.Fits.{Fits}
use gof_lang.Formatter.Lines.{format_block-lines, count_indent-indentation}
use gof_lang.Formatter.Parentheses.{format_expr-regrouped}
use gof_lang.Parser.Print.{erase, no_span}

-- `{:?}` of a text without quotes, backslashes and control characters.
abbrev quoted : Text → Text
quoted t = b'"' ∷ (t ++ b'"' ∷ [])

abbrev one : Expr
one = Expr.int (pos 1) no_span

abbrev two : Expr
two = Expr.int (pos 2) no_span

abbrev three : Expr
three = Expr.int (pos 3) no_span

formats_call :
    format_expr quoted (
      Expr.call
        (codes "f")
        (Exprs.cons (Expr.string (codes "a") no_span) (Exprs.cons two Exprs.nil))
        no_span)
    ≡ codes "f(\"a\", 2)"
unfolding format_expr decimal decimal_onto
formats_call = refl

format_expr-regrouped_example :
    let left = Expr.binary (Expr.binary one BinaryOp.add two no_span) BinaryOp.mul three no_span in
    let right = Expr.binary one BinaryOp.add (Expr.binary two BinaryOp.mul three no_span) no_span in
    (erase left ≢ erase right) × (format_expr quoted left ≡ format_expr quoted right)
format_expr-regrouped_example =
    format_expr-regrouped quoted one two three BinaryOp.add BinaryOp.mul no_span no_span no_span
      no_span

-- `if x:`, with a `return` in it, and an `else`.
abbrev choice : Block
choice =
    Block.cons
      (Stmt.if_stmt (Expr.ident (codes "x") no_span)
        (Block.cons (Stmt.return one no_span) Block.nil)
        (Block.cons (Stmt.return two no_span) Block.nil) no_span)
      Block.nil

abbrev program : Module
program = record empty_module {
  functions =
      (record {
        kind = FunctionKind.test;
        fixture_scope = none;
        receiver_type = none;
        name = codes "f";
        params = [];
        return_type = none;
        body = choice;
        span = no_span;
        source_path = [];
      })
      ∷ [];
}

formats_program :
    format_module quoted program
    ≡ codes "test fn f():\n    if x:\n        return 1\n    else:\n        return 2\n"
unfolding format_module format_block format_expr decimal decimal_onto
formats_program = refl

format_block-lines_example :
    (format_block quoted choice 1 ++ codes "\n" ≡ unlines (block_lines quoted choice 1))
    × Fits 1 (block_lines quoted choice 1)
format_block-lines_example = format_block-lines quoted choice 1

count_indent-indentation_example : count_indent (indentation 2 ++ codes "return") 5 ≡ (8, [])
count_indent-indentation_example = count_indent-indentation 5 2 b'r' (codes "eturn") refl refl
