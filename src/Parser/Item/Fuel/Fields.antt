-- ===== src/Parser/Item/Fuel/Fields.antt =====
-- The parsing of parameters, fields and variants ends.
use gof_lang.Prelude.{ℕ, zero, suc, ◌≤◌, [], Option, Text, codes, arith}
use gof_lang.Parser.Discriminant.{TokenDiscriminant}
use gof_lang.Parser.State.{Parser, advance, check, expect_ident}
use gof_lang.Parser.Progress.{
  elim_bool, Continues, Continues-refl, Continues-trans, advance-Continues, expect-Continues,
  expect_ident-Continues, Parsed, then-Parsed, from-Parsed, some-Parsed,
}
use gof_lang.Parser.Expr.Need.{
  NeedsFuel, within_rank, past_check, past_later, prefix-Parsed, mapped-Parsed,
}
use gof_lang.Parser.TypeRef.{parse_type_ref}
use gof_lang.Parser.TypeRef.Fuel.{parse_type_ref-Parsed, parse_type_after-Parsed}
use gof_lang.Parser.Statement.Arms.{skip}
use gof_lang.Parser.Statement.{body_ends}
use gof_lang.Parser.Statement.Need.{
  body_ends-HasMore, along, beyond, after_skip, after_open, closed-Parsed,
}
use gof_lang.Parser.Item.{
  parse_lines, parse_commas, parse_param, parse_params, parse_struct_field, parse_payload_field,
  parse_variant_tail, parse_enum_variant, parse_struct_fields, parse_enum_variants,
}

-- Further on, and with less rank.
pub reach :
    (rank k n : ℕ) (p q : Parser) → NeedsFuel k n p → Continues p q → rank ≤ k → NeedsFuel rank n q
reach rank k n p q h c b = along rank n p q (h.0, omega (arith, h.1, b)) c

module _ {A : Type 0} (parse_one : ℕ → Parser → Option (A × Parser))
    (passes : (n : ℕ) (p : Parser) → NeedsFuel 19 n p → Parsed (advance p) (parse_one n p)) where
  lines-Parsed : (n : ℕ) (p : Parser) → NeedsFuel 20 n p → Parsed p (parse_lines parse_one n p)
  unfolding parse_lines
  lines-Parsed zero p h = absurd (omega (arith, h.1))
  lines-Parsed (suc n) p h =
      elim_bool (Parsed p) (body_ends p) (λ _. some-Parsed p p [] (Continues-refl p))
        (λ e.
          let more = body_ends-HasMore p e in
          from-Parsed p (advance p) _ (advance-Continues p) (
            then-Parsed (advance p) (parse_one n p) _
              (passes n p (within_rank 19 20 n p h (omega arith)))
              (λ s c.
                mapped-Parsed s.1 _ _
                  (lines-Parsed n s.1 (beyond 20 20 n p s.1 h more c (omega arith))))))

  commas-Parsed : (n : ℕ) (p : Parser) → NeedsFuel 20 n p → Parsed p (parse_commas parse_one n p)
  unfolding parse_commas
  commas-Parsed zero p h = absurd (omega (arith, h.1))
  commas-Parsed (suc n) p h = from-Parsed p (advance p) _ (advance-Continues p) (
      then-Parsed (advance p) (parse_one n p) _ (passes n p (within_rank 19 20 n p h (omega arith)))
        (λ s c.
          elim_bool (Parsed s.1) (check TokenDiscriminant.comma s.1)
            (λ e. prefix-Parsed s.1 _ _ (
              commas-Parsed n (advance s.1) (
                past_later 20 20 n TokenDiscriminant.comma p s.1 h
                  (Continues-trans p (advance p) s.1 (advance-Continues p) c) e (omega arith))))
            (λ _. some-Parsed s.1 s.1 _ (Continues-refl s.1))))

param-passes : (n : ℕ) (p : Parser) → NeedsFuel 19 n p → Parsed (advance p) (parse_param n p)
unfolding parse_param
param-passes n p h =
    let message = codes "expected parameter name" in
    let q = (expect_ident message p).1 in
    let c = expect_ident-Continues message p in
    let g =
      reach 3 19 n p q h (Continues-trans p (advance p) q (advance-Continues p) c) (omega arith) in
    from-Parsed (advance p) q _ c (
      mapped-Parsed q _ _
        (parse_type_after-Parsed n TokenDiscriminant.colon _ q (g.0, omega (arith, g.1))))

pub params-Parsed : (n : ℕ) (p : Parser) → NeedsFuel 20 n p → Parsed p (parse_params n p)
unfolding parse_params
params-Parsed n p h =
    elim_bool (Parsed p) (check TokenDiscriminant.r_paren p)
      (λ _. some-Parsed p p [] (Continues-refl p))
      (λ _. commas-Parsed parse_param param-passes n p h)

-- A written type after a name and a colon.
typed-Parsed :
    (n : ℕ) (ask before message : Text) (p : Parser)
    → NeedsFuel 19 n p
    → Parsed
        (expect_ident ask p).1
        (parse_type_ref n message (skip TokenDiscriminant.colon before (expect_ident ask p).1))
typed-Parsed n ask before message p h =
    let q = (expect_ident ask p).1 in
    let c = Continues-trans p (advance p) q (advance-Continues p) (expect_ident-Continues ask p) in
    after_skip (parse_type_ref n message) TokenDiscriminant.colon before 2 n q
      (reach 2 19 n p q h c (omega arith)) (λ q g. parse_type_ref-Parsed n message q g)

struct_field-passes :
    (n : ℕ) (p : Parser) → NeedsFuel 19 n p → Parsed (advance p) (parse_struct_field n p)
unfolding parse_struct_field
struct_field-passes n p h =
    let ask = codes "expected a field name" in
    from-Parsed (advance p) (expect_ident ask p).1 _ (expect_ident-Continues ask p) (
      closed-Parsed (expect_ident ask p).1 _ _ TokenDiscriminant.newline _
        (typed-Parsed n ask _ _ p h))

payload_field-passes :
    (n : ℕ) (p : Parser) → NeedsFuel 19 n p → Parsed (advance p) (parse_payload_field n p)
unfolding parse_payload_field
payload_field-passes n p h =
    let ask = codes "expected an enum payload field name" in
    from-Parsed (advance p) (expect_ident ask p).1 _ (expect_ident-Continues ask p)
      (mapped-Parsed (expect_ident ask p).1 _ _ (typed-Parsed n ask _ _ p h))

variant_tail-Parsed :
    (n : ℕ) (named : Text × Parser)
    → NeedsFuel 19 n named.1
    → Parsed named.1 (parse_variant_tail n named)
unfolding parse_variant_tail
variant_tail-Parsed n (name, p) h =
    elim_bool (Parsed p) (check TokenDiscriminant.l_paren p)
      (λ e. from-Parsed p (advance p) _ (advance-Continues p) (
        then-Parsed (advance p) (parse_commas parse_payload_field n (advance p)) _
          (commas-Parsed parse_payload_field payload_field-passes n (advance p) (
            past_check 20 18 n TokenDiscriminant.l_paren p (h.0, omega (arith, h.1)) e
              (omega arith)))
          (λ r c. some-Parsed r.1 _ _ (expect-Continues TokenDiscriminant.r_paren _ r.1))))
      (λ _. some-Parsed p p _ (Continues-refl p))

enum_variant-passes :
    (n : ℕ) (p : Parser) → NeedsFuel 19 n p → Parsed (advance p) (parse_enum_variant n p)
unfolding parse_enum_variant
enum_variant-passes n p h =
    let ask = codes "expected an enum variant name" in
    let q = (expect_ident ask p).1 in
    let c = expect_ident-Continues ask p in
    from-Parsed (advance p) q _ c (
      closed-Parsed q _ (λ v. v) TokenDiscriminant.newline _
        (variant_tail-Parsed n (expect_ident ask p)
          (along 19 n p q h (Continues-trans p (advance p) q (advance-Continues p) c))))

pub struct_fields-Parsed :
    (n : ℕ) (message : Text) (p : Parser)
    → NeedsFuel 20 n p
    → Parsed p (parse_struct_fields n message p)
unfolding parse_struct_fields
struct_fields-Parsed n message p h =
    closed-Parsed p _ (λ v. v) TokenDiscriminant.dedent _
      (after_open (parse_lines parse_struct_field n) _ message 20 n p h
        (λ q g. lines-Parsed parse_struct_field struct_field-passes n q g))

pub enum_variants-Parsed :
    (n : ℕ) (message : Text) (p : Parser)
    → NeedsFuel 20 n p
    → Parsed p (parse_enum_variants n message p)
unfolding parse_enum_variants
enum_variants-Parsed n message p h =
    closed-Parsed p _ (λ v. v) TokenDiscriminant.dedent _
      (after_open (parse_lines parse_enum_variant n) _ message 20 n p h
        (λ q g. lines-Parsed parse_enum_variant enum_variant-passes n q g))
