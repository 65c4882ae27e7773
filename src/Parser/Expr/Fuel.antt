-- ===== src/Parser/Expr/Fuel.antt =====
-- `parse_expr` ends: fuel for thirty steps a token, and sixteen more, is enough.
use gof_lang.Prelude.{ℕ, zero, suc, ◌+◌, ◌*◌, ◌≡◌, refl, some, Text, codes, arith, inl}
use gof_lang.Token.{
  TokenKind, l_paren, l_bracket, l_brace, int_literal, string_literal, true_kw, false_kw, ident,
}
use gof_lang.Ast.{Expr, Exprs, DictEntries}
use gof_lang.Parser.Discriminant.{TokenDiscriminant}
use gof_lang.Parser.State.{Parser, advance, check, expect, expect_member_name}
use gof_lang.Parser.Progress.{
  elim_bool, elim_option, size, Continues, Continues-refl, Continues-trans, advance-Continues,
  expect-Continues, expect_member_name-Continues, check-advance, report-Continues, EndsClosed,
  Parsed, then-Parsed, from-Parsed, some-Parsed,
}
use gof_lang.Parser.Expr.{
  Level, or_level, and_level, comparison, additive, multiplicative, operator, callee, parse_expr,
  parse_binary, binary_loop, parse_operand, parse_not, parse_unary, parse_postfix, postfix_loop,
  parse_call, parse_member, parse_index, parse_args, parse_exprs, parse_entries, parse_primary,
  parse_token, parse_items, primary_diagnostic, parse_dict,
}
use gof_lang.Parser.Expr.Need.{
  callee-Continues, operator-advance, operand_rank, NeedsFuel, within_rank, further, past,
  past_check, past_later, prefix-Parsed, rank_pos, rank_bound, TokenFuel, opened,
}

mutual
  unfolding parse_expr

  pub parse_expr-Parsed : (n : ℕ) (p : Parser) → NeedsFuel 16 n p → Parsed p (parse_expr n p)
  parse_expr-Parsed zero p h = absurd (omega (arith, h.1))
  parse_expr-Parsed (suc n) p h =
      parse_binary-Parsed n or_level p (within_rank 15 16 n p h (omega arith))

  pub parse_binary-Parsed :
      (n : ℕ) (level : Level) (p : Parser)
      → NeedsFuel (operand_rank level + 1) n p
      → Parsed p (parse_binary n level p)
  parse_binary-Parsed zero level p h = absurd (omega (arith, h.1))
  parse_binary-Parsed (suc n) level p h =
      then-Parsed p (parse_operand n level p) (λ r. binary_loop n level r.0 r.1)
        (parse_operand-Parsed n level p (within_rank _ _ n p h (omega arith)))
        (λ r c.
          binary_loop-Parsed n level r.0 r.1
            (further 1 (operand_rank level + 1) n p r.1 h c (omega (arith, rank_pos level))))

  pub binary_loop-Parsed :
      (n : ℕ) (level : Level) (lhs : Expr) (p : Parser)
      → NeedsFuel 1 n p
      → Parsed p (binary_loop n level lhs p)
  binary_loop-Parsed zero level lhs p h = absurd (omega (arith, h.1))
  binary_loop-Parsed (suc n) level lhs p h =
      elim_option (Parsed p) (operator level p) (λ _. some-Parsed p p lhs (Continues-refl p))
        (λ op e.
          let shorter = operator-advance level p e in
          let c = advance-Continues p in
          from-Parsed p (advance p) _ c (
            then-Parsed (advance p) (parse_operand n level (advance p)) _
              (parse_operand-Parsed n level (advance p) (
                past (operand_rank level) 1 n p (advance p) (advance p) h shorter c
                  (Continues-refl (advance p)) (rank_bound level)))
              (λ r d.
                binary_loop-Parsed n level _ r.1
                  (past 1 1 n p (advance p) r.1 h shorter c d (omega arith)))))

  parse_operand-Parsed :
      (n : ℕ) (level : Level) (p : Parser)
      → NeedsFuel (operand_rank level) n p
      → Parsed p (parse_operand n level p)
  parse_operand-Parsed zero level p h = absurd (omega (arith, h.1, rank_pos level))
  parse_operand-Parsed (suc n) or_level p h =
      parse_binary-Parsed n and_level p (within_rank 13 14 n p h (omega arith))
  parse_operand-Parsed (suc n) and_level p h =
      parse_not-Parsed n p (within_rank 11 12 n p h (omega arith))
  parse_operand-Parsed (suc n) comparison p h =
      parse_binary-Parsed n additive p (within_rank 8 9 n p h (omega arith))
  parse_operand-Parsed (suc n) additive p h =
      parse_binary-Parsed n multiplicative p (within_rank 6 7 n p h (omega arith))
  parse_operand-Parsed (suc n) multiplicative p h =
      parse_unary-Parsed n p (within_rank 4 5 n p h (omega arith))

  pub parse_not-Parsed : (n : ℕ) (p : Parser) → NeedsFuel 11 n p → Parsed p (parse_not n p)
  parse_not-Parsed zero p h = absurd (omega (arith, h.1))
  parse_not-Parsed (suc n) p h =
      elim_bool (Parsed p) (check TokenDiscriminant.not_kw p)
        (λ e. prefix-Parsed p _ _ (
          parse_not-Parsed n (advance p)
            (past_check 11 11 n TokenDiscriminant.not_kw p h e (omega arith))))
        (λ _. parse_binary-Parsed n comparison p (within_rank 10 11 n p h (omega arith)))

  pub parse_unary-Parsed : (n : ℕ) (p : Parser) → NeedsFuel 4 n p → Parsed p (parse_unary n p)
  parse_unary-Parsed zero p h = absurd (omega (arith, h.1))
  parse_unary-Parsed (suc n) p h =
      elim_bool (Parsed p) (check TokenDiscriminant.go_kw p)
        (λ e. prefix-Parsed p _ _ (
          parse_unary-Parsed n (advance p)
            (past_check 4 4 n TokenDiscriminant.go_kw p h e (omega arith))))
        (λ _.
          elim_bool (Parsed p) (check TokenDiscriminant.await_kw p)
            (λ e. prefix-Parsed p _ _ (
              parse_unary-Parsed n (advance p)
                (past_check 4 4 n TokenDiscriminant.await_kw p h e (omega arith))))
            (λ _.
              elim_bool (Parsed p) (check TokenDiscriminant.minus p)
                (λ e. prefix-Parsed p _ _ (
                  parse_unary-Parsed n (advance p)
                    (past_check 4 4 n TokenDiscriminant.minus p h e (omega arith))))
                (λ _. parse_postfix-Parsed n p (within_rank 3 4 n p h (omega arith)))))

  parse_postfix-Parsed : (n : ℕ) (p : Parser) → NeedsFuel 3 n p → Parsed p (parse_postfix n p)
  parse_postfix-Parsed zero p h = absurd (omega (arith, h.1))
  parse_postfix-Parsed (suc n) p h =
      then-Parsed p (parse_primary n p) (λ r. postfix_loop n r.0 r.1)
        (parse_primary-Parsed n p (within_rank 2 3 n p h (omega arith)))
        (λ r c. postfix_loop-Parsed n r.0 r.1 (further 1 3 n p r.1 h c (omega arith)))

  pub postfix_loop-Parsed :
      (n : ℕ) (e : Expr) (p : Parser) → NeedsFuel 1 n p → Parsed p (postfix_loop n e p)
  postfix_loop-Parsed zero e p h = absurd (omega (arith, h.1))
  postfix_loop-Parsed (suc n) e p h =
      elim_bool (Parsed p) (check TokenDiscriminant.l_paren p)
        (λ q.
          let q₁ = (callee e (advance p)).1 in
          let c =
            Continues-trans p (advance p) q₁ (advance-Continues p)
              (callee-Continues e (advance p)) in
          from-Parsed p q₁ _ c (
            parse_call-Parsed n e (callee e (advance p)) (
              past 19 1 n p (advance p) q₁ h (check-advance TokenDiscriminant.l_paren p q)
                (advance-Continues p) (callee-Continues e (advance p)) (omega arith))))
        (λ _.
          elim_bool (Parsed p) (check TokenDiscriminant.dot p)
            (λ q.
              let message = codes "expected a field name after `.`" in
              let q₁ = (expect_member_name message (advance p)).1 in
              let m = expect_member_name-Continues message (advance p) in
              from-Parsed p q₁ _ (Continues-trans p (advance p) q₁ (advance-Continues p) m) (
                parse_member-Parsed n e (expect_member_name message (advance p)) (
                  past 19 1 n p (advance p) q₁ h (check-advance TokenDiscriminant.dot p q)
                    (advance-Continues p) m (omega arith))))
            (λ _.
              elim_bool (Parsed p) (check TokenDiscriminant.l_bracket p)
                (λ q. from-Parsed p (advance p) _ (advance-Continues p) (
                  parse_index-Parsed n e (advance p)
                    (past_check 19 1 n TokenDiscriminant.l_bracket p h q (omega arith))))
                (λ _.
                  elim_bool (Parsed p) (check TokenDiscriminant.question p)
                    (λ q. from-Parsed p (advance p) _ (advance-Continues p) (
                      postfix_loop-Parsed n _ (advance p)
                        (past_check 1 1 n TokenDiscriminant.question p h q (omega arith))))
                    (λ _. some-Parsed p p e (Continues-refl p)))))

  parse_call-Parsed :
      (n : ℕ) (e : Expr) (named : Text × Parser)
      → NeedsFuel 19 n named.1
      → Parsed named.1 (parse_call n e named)
  parse_call-Parsed zero e (name, p) h = absurd (omega (arith, h.1))
  parse_call-Parsed (suc n) e (name, p) h =
      then-Parsed p (parse_args n p) _
        (parse_args-Parsed n p (within_rank 18 19 n p h (omega arith)))
        (λ r c.
          let message = codes "expected `)` after call arguments" in
          let q = (expect TokenDiscriminant.r_paren message r.1).1 in
          let d = expect-Continues TokenDiscriminant.r_paren message r.1 in
          from-Parsed r.1 q _ d (
            postfix_loop-Parsed n _ q
              (further 1 19 n p q h (Continues-trans p r.1 q c d) (omega arith))))

  parse_member-Parsed :
      (n : ℕ) (e : Expr) (named : Text × Parser)
      → NeedsFuel 19 n named.1
      → Parsed named.1 (parse_member n e named)
  parse_member-Parsed zero e (name, p) h = absurd (omega (arith, h.1))
  parse_member-Parsed (suc n) e (name, p) h =
      elim_bool (Parsed p) (check TokenDiscriminant.l_paren p)
        (λ q. from-Parsed p (advance p) _ (advance-Continues p) (
          then-Parsed (advance p) (parse_args n (advance p)) _
            (parse_args-Parsed n (advance p)
              (past_check 18 19 n TokenDiscriminant.l_paren p h q (omega arith)))
            (λ r c.
              let message = codes "expected `)` after method arguments" in
              let q₁ = (expect TokenDiscriminant.r_paren message r.1).1 in
              let d = expect-Continues TokenDiscriminant.r_paren message r.1 in
              from-Parsed r.1 q₁ _ d (
                postfix_loop-Parsed n _ q₁ (
                  further 1 19 n p q₁ h
                    (Continues-trans p (advance p) q₁ (advance-Continues p)
                      (Continues-trans (advance p) r.1 q₁ c d))
                    (omega arith))))))
        (λ _. postfix_loop-Parsed n _ p (within_rank 1 19 n p h (omega arith)))

  parse_index-Parsed :
      (n : ℕ) (e : Expr) (p : Parser) → NeedsFuel 19 n p → Parsed p (parse_index n e p)
  parse_index-Parsed zero e p h = absurd (omega (arith, h.1))
  parse_index-Parsed (suc n) e p h =
      then-Parsed p (parse_expr n p) _
        (parse_expr-Parsed n p (within_rank 16 19 n p h (omega arith)))
        (λ r c.
          let message = codes "expected `]` after index expression" in
          let q = (expect TokenDiscriminant.r_bracket message r.1).1 in
          let d = expect-Continues TokenDiscriminant.r_bracket message r.1 in
          from-Parsed r.1 q _ d (
            postfix_loop-Parsed n _ q
              (further 1 19 n p q h (Continues-trans p r.1 q c d) (omega arith))))

  parse_args-Parsed : (n : ℕ) (p : Parser) → NeedsFuel 18 n p → Parsed p (parse_args n p)
  parse_args-Parsed zero p h = absurd (omega (arith, h.1))
  parse_args-Parsed (suc n) p h =
      elim_bool (Parsed p) (check TokenDiscriminant.r_paren p)
        (λ _. some-Parsed p p Exprs.nil (Continues-refl p))
        (λ _. parse_exprs-Parsed n p (within_rank 17 18 n p h (omega arith)))

  parse_items-Parsed : (n : ℕ) (p : Parser) → NeedsFuel 18 n p → Parsed p (parse_items n p)
  parse_items-Parsed zero p h = absurd (omega (arith, h.1))
  parse_items-Parsed (suc n) p h =
      elim_bool (Parsed p) (check TokenDiscriminant.r_bracket p)
        (λ _. some-Parsed p p Exprs.nil (Continues-refl p))
        (λ _. parse_exprs-Parsed n p (within_rank 17 18 n p h (omega arith)))

  parse_dict-Parsed : (n : ℕ) (p : Parser) → NeedsFuel 18 n p → Parsed p (parse_dict n p)
  parse_dict-Parsed zero p h = absurd (omega (arith, h.1))
  parse_dict-Parsed (suc n) p h =
      elim_bool (Parsed p) (check TokenDiscriminant.r_brace p)
        (λ _. some-Parsed p p DictEntries.no_entries (Continues-refl p))
        (λ _. parse_entries-Parsed n p (within_rank 17 18 n p h (omega arith)))

  parse_exprs-Parsed : (n : ℕ) (p : Parser) → NeedsFuel 17 n p → Parsed p (parse_exprs n p)
  parse_exprs-Parsed zero p h = absurd (omega (arith, h.1))
  parse_exprs-Parsed (suc n) p h =
      then-Parsed p (parse_expr n p) _
        (parse_expr-Parsed n p (within_rank 16 17 n p h (omega arith)))
        (λ r c.
          elim_bool (Parsed r.1) (check TokenDiscriminant.comma r.1)
            (λ q. prefix-Parsed r.1 _ _ (
              parse_exprs-Parsed n (advance r.1)
                (past_later 17 17 n TokenDiscriminant.comma p r.1 h c q (omega arith))))
            (λ _. some-Parsed r.1 r.1 _ (Continues-refl r.1)))

  parse_entries-Parsed : (n : ℕ) (p : Parser) → NeedsFuel 17 n p → Parsed p (parse_entries n p)
  parse_entries-Parsed zero p h = absurd (omega (arith, h.1))
  parse_entries-Parsed (suc n) p h =
      then-Parsed p (parse_expr n p) _
        (parse_expr-Parsed n p (within_rank 16 17 n p h (omega arith)))
        (λ r c.
          let message = codes "expected `:` between dict key and value" in
          let p₂ = (expect TokenDiscriminant.colon message r.1).1 in
          let d = expect-Continues TokenDiscriminant.colon message r.1 in
          from-Parsed r.1 p₂ _ d (
            then-Parsed p₂ (parse_expr n p₂) _
              (parse_expr-Parsed n p₂
                (further 16 17 n p p₂ h (Continues-trans p r.1 p₂ c d) (omega arith)))
              (λ v k.
                elim_bool (Parsed v.1) (check TokenDiscriminant.comma v.1)
                  (λ q. prefix-Parsed v.1 _ _ (
                    parse_entries-Parsed n (advance v.1) (
                      past_later 17 17 n TokenDiscriminant.comma p v.1 h
                        (Continues-trans p p₂ v.1 (Continues-trans p r.1 p₂ c d) k) q
                        (omega arith))))
                  (λ _. some-Parsed v.1 v.1 _ (Continues-refl v.1)))))

  pub parse_primary-Parsed : (n : ℕ) (p : Parser) → NeedsFuel 2 n p → Parsed p (parse_primary n p)
  parse_primary-Parsed zero p h = absurd (omega (arith, h.1))
  parse_primary-Parsed (suc n) p h =
      from-Parsed p (advance p) _ (advance-Continues p)
        (parse_token-Parsed n (advance p).previous.kind (advance p) (opened n p h))

  pub parse_token-Parsed :
      (n : ℕ) (kind : TokenKind) (p : Parser) → TokenFuel n kind p → Parsed p (parse_token n kind p)
  parse_token-Parsed zero kind p h = absurd (omega (arith, h.0))
  parse_token-Parsed (suc n) l_paren p h =
      let k = h.1 refl in
      then-Parsed p (parse_expr n p) _
        (parse_expr-Parsed n p (within_rank 16 19 n p k (omega arith)))
        (λ r c.
          let message = codes "expected `)` to close grouped expression" in
          some-Parsed r.1 (expect TokenDiscriminant.r_paren message r.1).1 r.0
            (expect-Continues TokenDiscriminant.r_paren message r.1))
  parse_token-Parsed (suc n) l_bracket p h =
      let k = h.1 refl in
      then-Parsed p (parse_items n p) _
        (parse_items-Parsed n p (within_rank 18 19 n p k (omega arith)))
        (λ r c.
          let message = codes "expected `]` after list literal" in
          some-Parsed r.1 (expect TokenDiscriminant.r_bracket message r.1).1 _
            (expect-Continues TokenDiscriminant.r_bracket message r.1))
  parse_token-Parsed (suc n) l_brace p h =
      let k = h.1 refl in
      then-Parsed p (parse_dict n p) _
        (parse_dict-Parsed n p (within_rank 18 19 n p k (omega arith)))
        (λ r c.
          let message = codes "expected `}` after dict literal" in
          some-Parsed r.1 (expect TokenDiscriminant.r_brace message r.1).1 _
            (expect-Continues TokenDiscriminant.r_brace message r.1))
  parse_token-Parsed (suc n) (int_literal v) p h = some-Parsed p _ _ (Continues-refl p)
  parse_token-Parsed (suc n) (string_literal v) p h = some-Parsed p _ _ (Continues-refl p)
  parse_token-Parsed (suc n) true_kw p h = some-Parsed p _ _ (Continues-refl p)
  parse_token-Parsed (suc n) false_kw p h = some-Parsed p _ _ (Continues-refl p)
  parse_token-Parsed (suc n) (ident v) p h = some-Parsed p _ _ (Continues-refl p)
  parse_token-Parsed (suc n) _ p h =
      some-Parsed p _ _ (report-Continues (primary_diagnostic p.previous.span) p (refl, inl refl))

-- If the last token before the end opens no bracket, then `parse_expr` returns, with fuel for
-- thirty steps a token that is left and sixteen more. The parser does not go back and does not
-- pass the end, and it reports errors with the codes GOF2001 and GOF2002 only, after those that were
-- reported before.
pub parse_expr-ends :
    (p : Parser)
    → EndsClosed p
    → (r : Expr × Parser) × (parse_expr (30 * size p + 16) p ≡ some r) × Continues p r.1
parse_expr-ends p h = parse_expr-Parsed (30 * size p + 16) p (h, omega arith)
