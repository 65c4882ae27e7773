-- ===== src/Parser/Expr/Passes.antt =====
-- `parse_expr` passes over at least one token, if one is left.
use gof_lang.Prelude.{ℕ, zero, suc, ◌+◌, arith}
use gof_lang.Parser.Discriminant.{TokenDiscriminant}
use gof_lang.Parser.State.{Parser, advance, check}
use gof_lang.Parser.Progress.{elim_bool, Continues-trans, advance-Continues, Parsed, then-Parsed}
use gof_lang.Parser.Expr.{
  Level, or_level, and_level, comparison, additive, multiplicative, parse_expr, parse_binary,
  binary_loop, parse_operand, parse_not, parse_unary, parse_postfix, postfix_loop, parse_primary,
}
use gof_lang.Parser.Expr.Need.{
  operand_rank, NeedsFuel, within_rank, further, past_check, mapped-Parsed, rank_pos, opened,
}
use gof_lang.Parser.Expr.Fuel.{
  binary_loop-Parsed, postfix_loop-Parsed, parse_token-Parsed, parse_not-Parsed, parse_unary-Parsed,
}

mutual
  unfolding parse_expr

  pub parse_expr-passes :
      (n : ℕ) (p : Parser) → NeedsFuel 16 n p → Parsed (advance p) (parse_expr n p)
  parse_expr-passes zero p h = absurd (omega (arith, h.1))
  parse_expr-passes (suc n) p h =
      parse_binary-passes n or_level p (within_rank 15 16 n p h (omega arith))

  parse_binary-passes :
      (n : ℕ) (level : Level) (p : Parser)
      → NeedsFuel (operand_rank level + 1) n p
      → Parsed (advance p) (parse_binary n level p)
  parse_binary-passes zero level p h = absurd (omega (arith, h.1))
  parse_binary-passes (suc n) level p h =
      then-Parsed (advance p) (parse_operand n level p) (λ r. binary_loop n level r.0 r.1)
        (parse_operand-passes n level p (within_rank _ _ n p h (omega arith)))
        (λ r c. binary_loop-Parsed n level r.0 r.1 (
          further 1 (operand_rank level + 1) n p r.1 h
            (Continues-trans p (advance p) r.1 (advance-Continues p) c)
            (omega (arith, rank_pos level))))

  parse_operand-passes :
      (n : ℕ) (level : Level) (p : Parser)
      → NeedsFuel (operand_rank level) n p
      → Parsed (advance p) (parse_operand n level p)
  parse_operand-passes zero level p h = absurd (omega (arith, h.1, rank_pos level))
  parse_operand-passes (suc n) or_level p h =
      parse_binary-passes n and_level p (within_rank 13 14 n p h (omega arith))
  parse_operand-passes (suc n) and_level p h =
      parse_not-passes n p (within_rank 11 12 n p h (omega arith))
  parse_operand-passes (suc n) comparison p h =
      parse_binary-passes n additive p (within_rank 8 9 n p h (omega arith))
  parse_operand-passes (suc n) additive p h =
      parse_binary-passes n multiplicative p (within_rank 6 7 n p h (omega arith))
  parse_operand-passes (suc n) multiplicative p h =
      parse_unary-passes n p (within_rank 4 5 n p h (omega arith))

  parse_not-passes : (n : ℕ) (p : Parser) → NeedsFuel 11 n p → Parsed (advance p) (parse_not n p)
  parse_not-passes zero p h = absurd (omega (arith, h.1))
  parse_not-passes (suc n) p h =
      elim_bool (Parsed (advance p)) (check TokenDiscriminant.not_kw p)
        (λ e. mapped-Parsed (advance p) _ _ (
          parse_not-Parsed n (advance p)
            (past_check 11 11 n TokenDiscriminant.not_kw p h e (omega arith))))
        (λ _. parse_binary-passes n comparison p (within_rank 10 11 n p h (omega arith)))

  parse_unary-passes : (n : ℕ) (p : Parser) → NeedsFuel 4 n p → Parsed (advance p) (parse_unary n p)
  parse_unary-passes zero p h = absurd (omega (arith, h.1))
  parse_unary-passes (suc n) p h =
      elim_bool (Parsed (advance p)) (check TokenDiscriminant.go_kw p)
        (λ e. mapped-Parsed (advance p) _ _ (
          parse_unary-Parsed n (advance p)
            (past_check 4 4 n TokenDiscriminant.go_kw p h e (omega arith))))
        (λ _.
          elim_bool (Parsed (advance p)) (check TokenDiscriminant.await_kw p)
            (λ e. mapped-Parsed (advance p) _ _ (
              parse_unary-Parsed n (advance p)
                (past_check 4 4 n TokenDiscriminant.await_kw p h e (omega arith))))
            (λ _.
              elim_bool (Parsed (advance p)) (check TokenDiscriminant.minus p)
                (λ e. mapped-Parsed (advance p) _ _ (
                  parse_unary-Parsed n (advance p)
                    (past_check 4 4 n TokenDiscriminant.minus p h e (omega arith))))
                (λ _. parse_postfix-passes n p (within_rank 3 4 n p h (omega arith)))))

  parse_postfix-passes :
      (n : ℕ) (p : Parser) → NeedsFuel 3 n p → Parsed (advance p) (parse_postfix n p)
  parse_postfix-passes zero p h = absurd (omega (arith, h.1))
  parse_postfix-passes (suc n) p h =
      then-Parsed (advance p) (parse_primary n p) (λ r. postfix_loop n r.0 r.1)
        (parse_primary-passes n p (within_rank 2 3 n p h (omega arith)))
        (λ r c. postfix_loop-Parsed n r.0 r.1 (
          further 1 3 n p r.1 h (Continues-trans p (advance p) r.1 (advance-Continues p) c)
            (omega arith)))

  parse_primary-passes :
      (n : ℕ) (p : Parser) → NeedsFuel 2 n p → Parsed (advance p) (parse_primary n p)
  parse_primary-passes zero p h = absurd (omega (arith, h.1))
  parse_primary-passes (suc n) p h =
      parse_token-Parsed n (advance p).previous.kind (advance p) (opened n p h)
