-- ===== src/Parser/TypeRef/Fuel.antt =====
-- The parsing of a written type ends.
use gof_lang.Prelude.{ℕ, zero, suc, none, Text, codes, arith}
use gof_lang.Parser.Discriminant.{TokenDiscriminant}
use gof_lang.Parser.State.{Parser, advance, check, expect, expect_ident}
use gof_lang.Parser.Progress.{
  elim_bool, Continues-refl, Continues-trans, advance-Continues, expect-Continues,
  expect_ident-Continues, Parsed, then-Parsed, from-Parsed, some-Parsed,
}
use gof_lang.Parser.Expr.Need.{
  NeedsFuel, within_rank, further, past_check, past_later, prefix-Parsed,
}
use gof_lang.Parser.TypeRef.{parse_type_ref, parse_type_tail, parse_type_args, parse_type_after}

mutual
  unfolding parse_type_ref

  pub parse_type_ref-passes :
      (n : ℕ) (message : Text) (p : Parser)
      → NeedsFuel 2 n p
      → Parsed (advance p) (parse_type_ref n message p)
  parse_type_ref-passes zero message p h = absurd (omega (arith, h.1))
  parse_type_ref-passes (suc n) message p h =
      let q = (expect_ident message p).1 in
      let c = expect_ident-Continues message p in
      from-Parsed (advance p) q _ c (
        parse_type_tail-Parsed n (expect_ident message p) (
          further 1 2 n p q h (Continues-trans p (advance p) q (advance-Continues p) c)
            (omega arith)))

  parse_type_tail-Parsed :
      (n : ℕ) (named : Text × Parser)
      → NeedsFuel 1 n named.1
      → Parsed named.1 (parse_type_tail n named)
  parse_type_tail-Parsed zero (name, p) h = absurd (omega (arith, h.1))
  parse_type_tail-Parsed (suc n) (name, p) h =
      elim_bool (Parsed p) (check TokenDiscriminant.l_bracket p)
        (λ e. from-Parsed p (advance p) _ (advance-Continues p) (
          then-Parsed (advance p) (parse_type_args n (advance p)) _
            (parse_type_args-Parsed n (advance p)
              (past_check 3 1 n TokenDiscriminant.l_bracket p h e (omega arith)))
            (λ r c.
              let message = codes "expected `]` after type arguments" in
              some-Parsed r.1 (expect TokenDiscriminant.r_bracket message r.1).1 _
                (expect-Continues TokenDiscriminant.r_bracket message r.1))))
        (λ _. some-Parsed p p _ (Continues-refl p))

  parse_type_args-Parsed : (n : ℕ) (p : Parser) → NeedsFuel 3 n p → Parsed p (parse_type_args n p)
  parse_type_args-Parsed zero p h = absurd (omega (arith, h.1))
  parse_type_args-Parsed (suc n) p h =
      let message = codes "expected a type argument" in
      from-Parsed p (advance p) _ (advance-Continues p) (
        then-Parsed (advance p) (parse_type_ref n message p) _
          (parse_type_ref-passes n message p (within_rank 2 3 n p h (omega arith)))
          (λ r c.
            elim_bool (Parsed r.1) (check TokenDiscriminant.comma r.1)
              (λ q. prefix-Parsed r.1 _ _ (
                parse_type_args-Parsed n (advance r.1) (
                  past_later 3 3 n TokenDiscriminant.comma p r.1 h
                    (Continues-trans p (advance p) r.1 (advance-Continues p) c) q (omega arith))))
              (λ _. some-Parsed r.1 r.1 _ (Continues-refl r.1))))

pub parse_type_ref-Parsed :
    (n : ℕ) (message : Text) (p : Parser) → NeedsFuel 2 n p → Parsed p (parse_type_ref n message p)
parse_type_ref-Parsed n message p h =
    from-Parsed p (advance p) _ (advance-Continues p) (parse_type_ref-passes n message p h)

pub parse_type_after-Parsed :
    (n : ℕ) (d : TokenDiscriminant) (message : Text) (p : Parser)
    → NeedsFuel 3 (suc n) p
    → Parsed p (parse_type_after n d message p)
unfolding parse_type_after
parse_type_after-Parsed n d message p h =
    elim_bool (Parsed p) (check d p)
      (λ e.
        prefix-Parsed p _ _
          (parse_type_ref-Parsed n message (advance p) (past_check 2 3 n d p h e (omega arith))))
      (λ _. some-Parsed p p none (Continues-refl p))
