-- ===== src/Formatter/Parentheses.antt =====
-- The formatter prints no parentheses.
use gof_lang.Prelude.{ℕ, suc, ◌≡◌, ◌≢◌, ap, ◌∙◌, ◌++◌, Text, codes, append_assoc, arith}
use gof_lang.Source.{Span}
use gof_lang.Ast.{BinaryOp, Expr}
use gof_lang.Formatter.{format_op, format_expr}
use gof_lang.Parser.Print.{erase}

-- How many binary operators stand one within the other, from the left.
left_depth : Expr → ℕ
left_depth (Expr.binary l _ _ _) = suc (left_depth l)
left_depth _ = 0

-- Two expressions that group a chain of two operators differently are never the same, but they are
-- printed as the same text.
pub format_expr-regrouped :
    (debug : Text → Text) (l m r : Expr) (op op' : BinaryOp) (s s' t t' : Span)
    → let left = Expr.binary (Expr.binary l op m s) op' r s' in
      let right = Expr.binary l op (Expr.binary m op' r t) t' in
      (erase left ≢ erase right) × (format_expr debug left ≡ format_expr debug right)
unfolding format_expr erase left_depth
format_expr-regrouped debug l m r op op' s s' t t' =
    let a = format_expr debug l in
    let b = format_expr debug m in
    let o = format_op op in
    let end = codes " " ++ (format_op op' ++ (codes " " ++ format_expr debug r)) in
    (
      (λ same. omega (arith, ap left_depth same)),
      append_assoc a (codes " " ++ (o ++ (codes " " ++ b))) end
          ∙ ap (λ x. a ++ (codes " " ++ x)) (append_assoc o (codes " " ++ b) end),
    )
