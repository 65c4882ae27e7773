-- ===== src/Parser/Statement/Fuel/Words.antt =====
-- The parsing of statements without a body ends.
use gof_lang.Prelude.{ℕ, suc, true, some, Text, codes, arith, ◌>>=◌, Option}
use gof_lang.Ast.{Expr, expr_span}
use gof_lang.Ast.Statement.{TypeRef, Stmt}
use gof_lang.Parser.Discriminant.{TokenDiscriminant}
use gof_lang.Parser.State.{Parser, advance, expect_ident}
use gof_lang.Parser.Progress.{
  Continues-refl, Continues-trans, advance-Continues, expect_ident-Continues, Parsed, then-Parsed,
  from-Parsed,
}
use gof_lang.Parser.Expr.{parse_expr}
use gof_lang.Parser.Expr.Need.{NeedsFuel, within_rank, further}
use gof_lang.Parser.Expr.Fuel.{parse_expr-Parsed}
use gof_lang.Parser.Expr.Passes.{parse_expr-passes}
use gof_lang.Parser.TypeRef.{parse_optional_type_ref}
use gof_lang.Parser.TypeRef.Fuel.{parse_type_after-Parsed}
use gof_lang.Parser.Statement.Arms.{skip}
use gof_lang.Parser.Statement.{
  bind_or_assign, parse_return, parse_mut, parse_assignment, parse_expr_stmt,
}
use gof_lang.Parser.Statement.Need.{HasMore, along, beyond, after_skip, closed-Parsed}

pub return-Parsed : (n : ℕ) (p : Parser) → NeedsFuel 17 (suc n) p → Parsed p (parse_return n p)
unfolding parse_return
return-Parsed n p h =
    closed-Parsed p (parse_expr n p) (λ e. Stmt.return e p.previous.span) TokenDiscriminant.newline
      (codes "expected a newline after `return`")
      (parse_expr-Parsed n p (within_rank 16 17 n p h (omega arith)))

-- The type, the `=` and the value, after a name.
module _ (n : ℕ) (before message : Text) (stmt : Option TypeRef → Expr → Stmt) where
  binding-Parsed :
      (p : Parser)
      → NeedsFuel 17 (suc n) p
      → Parsed p (
          parse_optional_type_ref n p >>= λ t.
          (parse_expr n (skip TokenDiscriminant.equal before t.1) >>= λ e.
          some (stmt t.0 e.0, skip TokenDiscriminant.newline message e.1)))
  binding-Parsed p h =
      then-Parsed p (parse_optional_type_ref n p) _
        (parse_type_after-Parsed n TokenDiscriminant.colon _ p (h.0, omega (arith, h.1)))
        (λ t c.
          closed-Parsed t.1 _ (λ e. stmt t.0 e) TokenDiscriminant.newline message
            (after_skip (parse_expr n) TokenDiscriminant.equal before 16 n t.1
              (further 16 17 n p t.1 h c (omega arith)) (λ q g. parse_expr-Parsed n q g)))

pub mut-Parsed : (n : ℕ) (p : Parser) → NeedsFuel 17 (suc n) p → Parsed p (parse_mut n p)
unfolding parse_mut
mut-Parsed n p h =
    let message = codes "expected an identifier after `mut`" in
    let q = (expect_ident message p).1 in
    let c =
      Continues-trans p (advance p) q (advance-Continues p) (expect_ident-Continues message p) in
    from-Parsed p q _ c (
      binding-Parsed n (codes "expected `=` in a binding")
        (codes "expected a newline after binding")
        (λ ty value. Stmt.bind (expect_ident message p).0 true ty value p.previous.span) q
        (along 17 (suc n) p q h c))

pub assignment-passes :
    (n : ℕ) (p : Parser) → NeedsFuel 17 (suc n) p → Parsed (advance p) (parse_assignment n p)
unfolding parse_assignment
assignment-passes n p h =
    let message = codes "expected a binding target" in
    let named = expect_ident message p in
    let q = named.1 in
    let c = expect_ident-Continues message p in
    from-Parsed (advance p) q _ c (
      binding-Parsed n (codes "expected `=` in an assignment or binding")
        (codes "expected a newline after assignment")
        (λ ty value. bind_or_assign named.0 ty value q.previous.span) q
        (along 17 (suc n) p q h (Continues-trans p (advance p) q (advance-Continues p) c)))

pub expr_stmt-passes :
    (n : ℕ) (p : Parser) → NeedsFuel 17 (suc n) p → Parsed (advance p) (parse_expr_stmt n p)
unfolding parse_expr_stmt
expr_stmt-passes n p h =
    closed-Parsed (advance p) (parse_expr n p) (λ e. Stmt.expr e (expr_span e))
      TokenDiscriminant.newline (codes "expected a newline after expression")
      (parse_expr-passes n p (within_rank 16 17 n p h (omega arith)))

pub after_word :
    (n : ℕ) (p : Parser) → NeedsFuel 19 (suc n) p → HasMore p → NeedsFuel 17 (suc n) (advance p)
after_word n p h more =
    let g = beyond 16 19 n p (advance p) h more (Continues-refl (advance p)) (omega arith) in
    (g.0, omega (arith, g.1))
