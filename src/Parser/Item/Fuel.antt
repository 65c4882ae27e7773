-- ===== src/Parser/Item/Fuel.antt =====
-- The parsing of items ends.
mod Fields
use gof_lang.Prelude.{
  ℕ, zero, suc, ◌≤◌, refl, inr, List, [], ◌∷◌, Option, Text, codes, arith, if_cases,
}
use gof_lang.Source.{Span}
use gof_lang.Diagnostics.{Diagnostic}
use gof_lang.Token.{Token}
use gof_lang.Ast.Statement.{TypeRef}
use gof_lang.Ast.Item.{FixtureScopeRef}
use gof_lang.Parser.Discriminant.{TokenDiscriminant}
use gof_lang.Parser.State.{
  Parser, peek, report, advance_onto, unexpected_token, advance, check, expect, expect_ident,
  expect_member_name,
}
use gof_lang.Parser.Progress.{
  elim_bool, report-Continues, Continues, Continues-refl, Continues-trans, advance-Continues,
  expect-Continues, expect_ident-Continues, expect_member_name-Continues, Parsed, then-Parsed,
  from-Parsed, some-Parsed,
}
use gof_lang.Parser.Expr.Need.{
  NeedsFuel, within_rank, past_check, past_later, prefix-Parsed, mapped-Parsed,
}
use gof_lang.Parser.TypeRef.{parse_type_ref, parse_optional_return_type_ref}
use gof_lang.Parser.TypeRef.Fuel.{parse_type_ref-Parsed, parse_type_after-Parsed}
use gof_lang.Parser.Statement.Arms.{skip}
use gof_lang.Parser.Statement.{body_ends, parse_block}
use gof_lang.Parser.Statement.Fuel.{parse_block-Parsed}
use gof_lang.Parser.Statement.Need.{
  body_ends-HasMore, along, beyond, after_skip, after_open, closed-Parsed,
}
use gof_lang.Parser.Item.{
  parse_import, parse_lines, parse_commas, parse_param, parse_params, parse_struct_field,
  parse_payload_field, parse_variant_tail, parse_enum_variant, parse_struct_fields,
  parse_enum_variants, parse_struct, parse_enum, parse_fixture_scope_name, Opening, parse_opening,
  parse_receiver, parse_function,
}
use gof_lang.Parser.Item.Fuel.Fields.{
  reach, params-Parsed, struct_fields-Parsed, enum_variants-Parsed,
}

-- A word that may be missing, and then a token that is passed over in any case.
word-advance :
    (d : TokenDiscriminant) (message : Text) (p : Parser)
    → Continues (advance p) (advance (skip d message p))
unfolding expect
word-advance d message p =
    if_cases (λ (r : Span × Parser). Continues (advance p) (advance r.1)) (check d p)
      (λ _. advance-Continues (advance p)) (λ _. onto p.upcoming)
  where
    told : Diagnostic
    told = unexpected_token d message (peek p)

    onto : (ts : List Token) → Continues (advance_onto ts p) (advance_onto ts (report told p))
    onto [] = report-Continues told p (refl, inr refl)
    onto (t ∷ ts) =
        report-Continues told (record p { previous = t; upcoming = ts }) (refl, inr refl)

-- The name after it.
name-passes :
    (d : TokenDiscriminant) (before message : Text) (p : Parser)
    → Continues (advance p) (expect_ident message (skip d before p)).1
name-passes d before message p =
    Continues-trans (advance p) (advance (skip d before p))
      (expect_ident message (skip d before p)).1 (word-advance d before p)
      (expect_ident-Continues message (skip d before p))

pub import-passes : (p : Parser) → Continues (advance p) (parse_import p).1
unfolding parse_import
import-passes p =
    let ask = codes "expected a module name after `import`" in
    let q = (expect_ident ask (skip TokenDiscriminant.import_kw (codes "expected `import`") p)).1 in
    let message = codes "expected a newline after import statement" in
    Continues-trans (advance p) q (skip TokenDiscriminant.newline message q)
      (name-passes TokenDiscriminant.import_kw (codes "expected `import`") ask p)
      (expect-Continues TokenDiscriminant.newline message q)

pub struct-passes : (n : ℕ) (p : Parser) → NeedsFuel 28 n p → Parsed (advance p) (parse_struct n p)
unfolding parse_struct
struct-passes n p h =
    let before = codes "expected `struct` to start a struct" in
    let ask = codes "expected a struct name after `struct`" in
    let q = (expect_ident ask (skip TokenDiscriminant.struct_kw before p)).1 in
    let c = name-passes TokenDiscriminant.struct_kw before ask p in
    from-Parsed (advance p) q _ c (
      mapped-Parsed q _ _ (
        after_skip (parse_struct_fields n _) TokenDiscriminant.colon _ 20 n q
          (reach 20 28 n p q h (Continues-trans p (advance p) q (advance-Continues p) c)
            (omega arith))
          (λ q g. struct_fields-Parsed n _ q g)))

pub enum-passes : (n : ℕ) (p : Parser) → NeedsFuel 28 n p → Parsed (advance p) (parse_enum n p)
unfolding parse_enum
enum-passes n p h =
    let before = codes "expected `enum` to start an enum" in
    let ask = codes "expected an enum name after `enum`" in
    let q = (expect_ident ask (skip TokenDiscriminant.enum_kw before p)).1 in
    let c = name-passes TokenDiscriminant.enum_kw before ask p in
    from-Parsed (advance p) q _ c (
      mapped-Parsed q _ _ (
        after_skip (parse_enum_variants n _) TokenDiscriminant.colon _ 20 n q
          (reach 20 28 n p q h (Continues-trans p (advance p) q (advance-Continues p) c)
            (omega arith))
          (λ q g. enum_variants-Parsed n _ q g)))

scope-Continues : (p : Parser) → Continues p (parse_fixture_scope_name p).1
unfolding parse_fixture_scope_name
scope-Continues p =
    elim_bool (λ (r : FixtureScopeRef × Parser). Continues p r.1)
      (check TokenDiscriminant.test_kw p) (λ _. advance-Continues p)
      λ _.
        elim_bool (λ (r : FixtureScopeRef × Parser). Continues p r.1)
          (check TokenDiscriminant.module_kw p) (λ _. advance-Continues p)
          λ _.
            let message = codes "expected a fixture scope like `test` or `module`" in
            Continues-trans p (advance p) (expect_ident message p).1 (advance-Continues p)
              (expect_ident-Continues message p)

opening-advance : (p : Parser) → Continues (advance p) (advance (parse_opening p).1)
unfolding parse_opening
opening-advance p =
    elim_bool (λ (r : Opening × Parser). Continues (advance p) (advance r.1))
      (check TokenDiscriminant.test_kw p)
      (λ _.
        let q = skip TokenDiscriminant.fn_kw (codes "expected `fn` after `test`") (advance p) in
        Continues-trans (advance p) q (advance q)
          (expect-Continues TokenDiscriminant.fn_kw _ (advance p)) (advance-Continues q))
      λ _.
        elim_bool (λ (r : Opening × Parser). Continues (advance p) (advance r.1))
          (check TokenDiscriminant.fixture_kw p)
          (λ _.
            let p₁ =
              skip TokenDiscriminant.l_paren
                (codes "expected `(` after `fixture` to declare a lifetime scope") (advance p) in
            let p₂ = (parse_fixture_scope_name p₁).1 in
            let p₃ =
              skip TokenDiscriminant.r_paren (codes "expected `)` after the fixture scope") p₂ in
            let q =
              skip TokenDiscriminant.fn_kw (codes "expected `fn` after `fixture(scope)`") p₃ in
            Continues-trans (advance p) p₁ (advance q)
              (expect-Continues TokenDiscriminant.l_paren _ (advance p))
              (Continues-trans p₁ p₂ (advance q) (scope-Continues p₁) (
                Continues-trans p₂ p₃ (advance q) (expect-Continues TokenDiscriminant.r_paren _ p₂)
                  (Continues-trans p₃ q (advance q) (expect-Continues TokenDiscriminant.fn_kw _ p₃)
                    (advance-Continues q)))))
          λ _. word-advance TokenDiscriminant.fn_kw (codes "expected `fn` to start a function") p

receiver-Continues : (named : Text × Parser) → Continues named.1 (parse_receiver named).1
unfolding parse_receiver
receiver-Continues (head, p) =
    elim_bool (λ (r : (Option TypeRef × Text) × Parser). Continues p r.1)
      (check TokenDiscriminant.dot p)
      (λ _.
        let message = codes "expected a method name after `TypeName.`" in
        Continues-trans p (advance p) (expect_member_name message (advance p)).1
          (advance-Continues p) (expect_member_name-Continues message (advance p)))
      (λ _. Continues-refl p)

pub function-passes :
    (n : ℕ) (p : Parser) → NeedsFuel 28 n p → Parsed (advance p) (parse_function n p)
unfolding parse_function
function-passes n p h =
    let p₁ = (parse_opening p).1 in
    let ask = codes "expected a function name after `fn`" in
    let named = expect_ident ask p₁ in
    let q = (parse_receiver named).1 in
    let c = Continues-trans (advance p) (advance p₁) q (opening-advance p) (
      Continues-trans (advance p₁) named.1 q (expect_ident-Continues ask p₁)
        (receiver-Continues named)) in
    let g =
      reach 28 28 n p q h (Continues-trans p (advance p) q (advance-Continues p) c) (omega arith) in
    from-Parsed (advance p) q _ c (
      then-Parsed q _ _
        (after_skip (parse_params n) TokenDiscriminant.l_paren _ 20 n q (g.0, omega (arith, g.1))
          (λ q g. params-Parsed n q g))
        (λ r d.
          then-Parsed r.1 _ _
            (after_skip (parse_optional_return_type_ref n) TokenDiscriminant.r_paren _ 19 n r.1
              (reach 19 28 n q r.1 g d (omega arith))
              (λ q g.
                parse_type_after-Parsed n TokenDiscriminant.arrow _ q (g.0, omega (arith, g.1))))
            (λ t e. mapped-Parsed t.1 _ _ (
              after_skip (parse_block n _) TokenDiscriminant.colon _ 21 n t.1
                (reach 21 28 n q t.1 g (Continues-trans q r.1 t.1 d e) (omega arith))
                (λ q g. parse_block-Parsed n _ q g)))))
