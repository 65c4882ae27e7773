-- ===== src/Parser/Statement/Fuel.antt =====
-- The parsing of statements ends.
mod Words
use gof_lang.Prelude.{ℕ, zero, suc, true, some, Text, codes, arith, ◌>>=◌, Option}
use gof_lang.Ast.{Expr, expr_span}
use gof_lang.Ast.Statement.{TypeRef, Stmt, Block, MatchArms, SelectArms}
use gof_lang.Parser.Discriminant.{TokenDiscriminant}
use gof_lang.Parser.State.{Parser, advance, check, expect_ident}
use gof_lang.Parser.Progress.{
  elim_bool, Continues-refl, Continues-trans, advance-Continues, expect-Continues,
  expect_ident-Continues, Parsed, then-Parsed, from-Parsed, some-Parsed,
}
use gof_lang.Parser.Expr.{parse_expr}
use gof_lang.Parser.Expr.Need.{NeedsFuel, within_rank, further, past_check, mapped-Parsed}
use gof_lang.Parser.Expr.Fuel.{parse_expr-Parsed}
use gof_lang.Parser.Expr.Passes.{parse_expr-passes}
use gof_lang.Parser.TypeRef.{parse_optional_type_ref}
use gof_lang.Parser.TypeRef.Fuel.{parse_type_after-Parsed}
use gof_lang.Parser.Statement.Arms.{
  skip, parse_match_pattern, check_ident_binding_or_assignment, select_binding,
}
use gof_lang.Parser.Statement.{
  bind_or_assign, body_ends, parse_return, parse_mut, parse_assignment, parse_expr_stmt, parse_stmt,
  parse_if, parse_else, parse_while, parse_for, parse_match, parse_select, parse_block, parse_stmts,
  parse_match_arms, parse_select_arms, parse_select_arm,
}
use gof_lang.Parser.Statement.Need.{
  HasMore, body_ends-HasMore, along, beyond, after_skip, after_open, after_colon, closed-Parsed,
  pattern-passes, binding_cases,
}
use gof_lang.Parser.Statement.Fuel.Words.{
  return-Parsed, mut-Parsed, assignment-passes, expr_stmt-passes, after_word,
}

mutual
  unfolding parse_stmt

  pub parse_stmt-passes :
      (n : ℕ) (p : Parser) → NeedsFuel 19 n p → HasMore p → Parsed (advance p) (parse_stmt n p)
  parse_stmt-passes zero p h more = absurd (omega (arith, h.1))
  parse_stmt-passes (suc n) p h more =
      let inside = beyond 24 19 n p (advance p) h more (Continues-refl (advance p)) (omega arith) in
      elim_bool (Parsed (advance p)) (check TokenDiscriminant.return_kw p)
        (λ _. return-Parsed n (advance p) (after_word n p h more))
        λ _.
          elim_bool (Parsed (advance p)) (check TokenDiscriminant.if_kw p)
            (λ _. parse_if-Parsed n (advance p) inside)
            λ _.
              elim_bool (Parsed (advance p)) (check TokenDiscriminant.while_kw p)
                (λ _. parse_while-Parsed n (advance p) inside)
                λ _.
                  elim_bool (Parsed (advance p)) (check TokenDiscriminant.for_kw p)
                    (λ _. parse_for-Parsed n (advance p) inside)
                    λ _.
                      elim_bool (Parsed (advance p)) (check TokenDiscriminant.break_kw p)
                        (λ _. some-Parsed (advance p) _ _ (
                          expect-Continues TokenDiscriminant.newline
                            (codes "expected a newline after `break`") (advance p)))
                        λ _.
                          elim_bool (Parsed (advance p)) (check TokenDiscriminant.continue_kw p)
                            (λ _. some-Parsed (advance p) _ _ (
                              expect-Continues TokenDiscriminant.newline
                                (codes "expected a newline after `continue`") (advance p)))
                            λ _.
                              elim_bool (Parsed (advance p)) (check TokenDiscriminant.match_kw p)
                                (λ _. parse_match-Parsed n (advance p) inside)
                                λ _.
                                  elim_bool (Parsed (advance p))
                                    (check TokenDiscriminant.select_kw p)
                                    (λ _. parse_select-Parsed n (advance p) inside)
                                    λ _.
                                      elim_bool (Parsed (advance p))
                                        (check TokenDiscriminant.mut_kw p)
                                        (λ _. mut-Parsed n (advance p) (after_word n p h more))
                                        λ _.
                                          elim_bool (Parsed (advance p))
                                            (check_ident_binding_or_assignment p)
                                            (λ _. assignment-passes n p (h.0, omega (arith, h.1)))
                                            (λ _. expr_stmt-passes n p (h.0, omega (arith, h.1)))

  parse_if-Parsed : (n : ℕ) (p : Parser) → NeedsFuel 24 n p → Parsed p (parse_if n p)
  parse_if-Parsed zero p h = absurd (omega (arith, h.1))
  parse_if-Parsed (suc n) p h =
      then-Parsed p (parse_expr n p) _
        (parse_expr-Parsed n p (within_rank 16 24 n p h (omega arith)))
        (λ r c.
          then-Parsed r.1 _ _
            (after_skip (parse_block n _) TokenDiscriminant.colon _ 21 n r.1
              (further 21 24 n p r.1 h c (omega arith)) (λ q g. parse_block-Parsed n _ q g))
            (λ b d. mapped-Parsed b.1 _ _ (
              parse_else-Parsed n b.1
                (further 22 24 n p b.1 h (Continues-trans p r.1 b.1 c d) (omega arith)))))

  parse_else-Parsed : (n : ℕ) (p : Parser) → NeedsFuel 22 n p → Parsed p (parse_else n p)
  parse_else-Parsed zero p h = absurd (omega (arith, h.1))
  parse_else-Parsed (suc n) p h =
      elim_bool (Parsed p) (check TokenDiscriminant.else_kw p)
        (λ e. from-Parsed p (advance p) _ (advance-Continues p) (
          after_skip (parse_block n _) TokenDiscriminant.colon _ 21 n (advance p)
            (past_check 21 22 n TokenDiscriminant.else_kw p h e (omega arith))
            (λ q g. parse_block-Parsed n _ q g)))
        (λ _. some-Parsed p p Block.nil (Continues-refl p))

  parse_while-Parsed : (n : ℕ) (p : Parser) → NeedsFuel 24 n p → Parsed p (parse_while n p)
  parse_while-Parsed zero p h = absurd (omega (arith, h.1))
  parse_while-Parsed (suc n) p h =
      then-Parsed p (parse_expr n p) _
        (parse_expr-Parsed n p (within_rank 16 24 n p h (omega arith)))
        (λ r c. mapped-Parsed r.1 _ _ (
          after_skip (parse_block n _) TokenDiscriminant.colon _ 21 n r.1
            (further 21 24 n p r.1 h c (omega arith)) (λ q g. parse_block-Parsed n _ q g)))

  parse_for-Parsed : (n : ℕ) (p : Parser) → NeedsFuel 24 n p → Parsed p (parse_for n p)
  parse_for-Parsed zero p h = absurd (omega (arith, h.1))
  parse_for-Parsed (suc n) p h =
      let message = codes "expected a loop binding after `for`" in
      let q = (expect_ident message p).1 in
      let c =
        Continues-trans p (advance p) q (advance-Continues p) (expect_ident-Continues message p) in
      from-Parsed p q _ c (
        then-Parsed q _ _
          (after_skip (parse_expr n) TokenDiscriminant.in_kw _ 16 n q
            (further 16 24 n p q h c (omega arith)) (λ q g. parse_expr-Parsed n q g))
          (λ r d. mapped-Parsed r.1 _ _ (
            after_skip (parse_block n _) TokenDiscriminant.colon _ 21 n r.1
              (further 21 24 n p r.1 h (Continues-trans p q r.1 c d) (omega arith))
              (λ q g. parse_block-Parsed n _ q g))))

  parse_match-Parsed : (n : ℕ) (p : Parser) → NeedsFuel 24 n p → Parsed p (parse_match n p)
  parse_match-Parsed zero p h = absurd (omega (arith, h.1))
  parse_match-Parsed (suc n) p h =
      then-Parsed p (parse_expr n p) _
        (parse_expr-Parsed n p (within_rank 16 24 n p h (omega arith)))
        (λ r c. closed-Parsed r.1 _ _ TokenDiscriminant.dedent _ (
          after_colon (parse_match_arms n) _ _ _ 20 n r.1 (further 20 24 n p r.1 h c (omega arith))
            (λ q g. parse_match_arms-Parsed n q g)))

  parse_select-Parsed : (n : ℕ) (p : Parser) → NeedsFuel 24 n p → Parsed p (parse_select n p)
  parse_select-Parsed zero p h = absurd (omega (arith, h.1))
  parse_select-Parsed (suc n) p h = closed-Parsed p _ _ TokenDiscriminant.dedent _ (
      after_colon (parse_select_arms n) _ _ _ 20 n p (within_rank 20 24 n p h (omega arith))
        (λ q g. parse_select_arms-Parsed n q g))

  pub parse_block-Parsed :
      (n : ℕ) (message : Text) (p : Parser) → NeedsFuel 21 n p → Parsed p (parse_block n message p)
  parse_block-Parsed zero message p h = absurd (omega (arith, h.1))
  parse_block-Parsed (suc n) message p h = closed-Parsed p _ _ TokenDiscriminant.dedent _ (
      after_open (parse_stmts n) _ message 20 n p (within_rank 20 21 n p h (omega arith))
        (λ q g. parse_stmts-Parsed n q g))

  parse_stmts-Parsed : (n : ℕ) (p : Parser) → NeedsFuel 20 n p → Parsed p (parse_stmts n p)
  parse_stmts-Parsed zero p h = absurd (omega (arith, h.1))
  parse_stmts-Parsed (suc n) p h =
      elim_bool (Parsed p) (body_ends p) (λ _. some-Parsed p p Block.nil (Continues-refl p))
        (λ e.
          let more = body_ends-HasMore p e in
          from-Parsed p (advance p) _ (advance-Continues p) (
            then-Parsed (advance p) (parse_stmt n p) _
              (parse_stmt-passes n p (within_rank 19 20 n p h (omega arith)) more)
              (λ s c.
                mapped-Parsed s.1 _ _
                  (parse_stmts-Parsed n s.1 (beyond 20 20 n p s.1 h more c (omega arith))))))

  parse_match_arms-Parsed :
      (n : ℕ) (p : Parser) → NeedsFuel 20 n p → Parsed p (parse_match_arms n p)
  parse_match_arms-Parsed zero p h = absurd (omega (arith, h.1))
  parse_match_arms-Parsed (suc n) p h =
      elim_bool (Parsed p) (body_ends p) (λ _. some-Parsed p p MatchArms.no_arms (Continues-refl p))
        (λ e.
          let more = body_ends-HasMore p e in
          from-Parsed p (advance p) _ (advance-Continues p) (
            then-Parsed (advance p) (parse_match_pattern n p) _
              (pattern-passes 20 n p h (omega arith))
              (λ s c.
                then-Parsed s.1 _ _
                  (after_skip (parse_block n _) TokenDiscriminant.colon _ 21 n s.1
                    (beyond 21 20 n p s.1 h more c (omega arith))
                    (λ q g. parse_block-Parsed n _ q g))
                  (λ b d. mapped-Parsed b.1 _ _ (
                    parse_match_arms-Parsed n b.1 (
                      beyond 20 20 n p b.1 h more (Continues-trans (advance p) s.1 b.1 c d)
                        (omega arith)))))))

  parse_select_arms-Parsed :
      (n : ℕ) (p : Parser) → NeedsFuel 20 n p → Parsed p (parse_select_arms n p)
  parse_select_arms-Parsed zero p h = absurd (omega (arith, h.1))
  parse_select_arms-Parsed (suc n) p h =
      elim_bool (Parsed p) (body_ends p)
        (λ _. some-Parsed p p SelectArms.no_select_arms (Continues-refl p))
        (λ e.
          let more = body_ends-HasMore p e in
          from-Parsed p (advance p) _ (advance-Continues p) (
            then-Parsed (advance p) (parse_select_arm n p) _
              (parse_select_arm-passes n p (within_rank 19 20 n p h (omega arith)) more)
              (λ s c.
                mapped-Parsed s.1 _ _
                  (parse_select_arms-Parsed n s.1 (beyond 20 20 n p s.1 h more c (omega arith))))))

  parse_select_arm-passes :
      (n : ℕ) (p : Parser)
      → NeedsFuel 19 n p
      → HasMore p
      → Parsed (advance p) (parse_select_arm n p)
  parse_select_arm-passes zero p h more = absurd (omega (arith, h.1))
  parse_select_arm-passes (suc n) p h more =
      elim_bool (Parsed (advance p)) (check TokenDiscriminant.default_kw p)
        (λ _. mapped-Parsed (advance p) _ _ (
          after_skip (parse_block n _) TokenDiscriminant.colon _ 21 n (advance p)
            (beyond 21 19 n p (advance p) h more (Continues-refl (advance p)) (omega arith))
            (λ q g. parse_block-Parsed n _ q g)))
        (λ _.
          then-Parsed (advance p) (parse_expr n (select_binding p).1) _
            (binding_cases (λ b. Parsed (advance p) (parse_expr n b.1)) p
              (λ name q c.
                from-Parsed (advance p) q _ c
                  (parse_expr-Parsed n q (beyond 16 19 n p q h more c (omega arith))))
              (parse_expr-passes n p (within_rank 16 19 n p h (omega arith))))
            (λ e c. mapped-Parsed e.1 _ _ (
              after_skip (parse_block n _) TokenDiscriminant.colon _ 21 n e.1
                (beyond 21 19 n p e.1 h more c (omega arith)) (λ q g. parse_block-Parsed n _ q g))))
