-- ===== src/Parser/Module/Fuel.antt =====
-- The parser of modules ends, at the end of the tokens.
use gof_lang.Prelude.{
  ℕ, zero, suc, ◌+◌, ◌*◌, ◌≤◌, ◌≡◌, refl, sym, ap, subst, ◌∙◌, true, false, not, ◌&&◌, List, [],
  ◌∷◌, Option, some, All, is_empty, length, ◌>>=◌, arith, Bool-cases, inl, inr,
}
use gof_lang.Token.{TokenKind, Token, eof}
use gof_lang.Ast.Item.{Module}
use gof_lang.Parser.Discriminant.{TokenDiscriminant, matches_kind}
use gof_lang.Parser.State.{Parser, is_eof, at_end, advance, check, first_or}
use gof_lang.Parser.Progress.{
  elim_bool, elim_false, size, Extends-refl, NoEof, Continues, Continues-refl, Continues-trans,
  advance-Continues, last_or, Continues-EndsClosed, EndsClosed, Parsed, some-Parsed,
}
use gof_lang.Parser.Expr.Need.{NeedsFuel, mapped-Parsed}
use gof_lang.Parser.Statement.Need.{HasMore, more-advance}
use gof_lang.Parser.Item.Fuel.{import-passes, struct-passes, enum-passes, function-passes}
use gof_lang.Parser.Module.{
  skip_newlines_onto, skip_newlines, parse_item, parse_items, parse_module, empty_module,
}

skip_newlines-Continues : (p : Parser) → Continues p (skip_newlines p)
unfolding skip_newlines_onto
skip_newlines-Continues p = onto p.upcoming p refl
  where
    onto : (ts : List Token) (q : Parser) → q.upcoming ≡ ts → Continues q (skip_newlines_onto ts q)
    onto [] q e = Continues-refl q
    onto (t ∷ ts) q e =
        let next = record q { previous = t; upcoming = ts } in
        elim_bool (Continues q) (matches_kind TokenDiscriminant.newline t.kind)
          (λ _.
            Continues-trans q next (skip_newlines_onto ts next)
              (
                omega (arith, ap length e),
                sym (ap (last_or q.previous) e),
                Extends-refl q.diagnostics,
                λ g. (subst (All (λ u. is_eof u.kind ≡ false)) e g).1,
              )
              (onto ts next refl))
          (λ _. Continues-refl q)

item-passes :
    (n : ℕ) (m : Module) (p : Parser) → NeedsFuel 28 n p → Parsed (advance p) (parse_item n m p)
unfolding parse_item
item-passes n m p h =
    elim_bool (Parsed (advance p)) (check TokenDiscriminant.import_kw p)
      (λ _. some-Parsed (advance p) _ _ (import-passes p))
      λ _.
        elim_bool (Parsed (advance p)) (check TokenDiscriminant.struct_kw p)
          (λ _. mapped-Parsed (advance p) _ _ (struct-passes n p h))
          λ _.
            elim_bool (Parsed (advance p)) (check TokenDiscriminant.enum_kw p)
              (λ _. mapped-Parsed (advance p) _ _ (enum-passes n p h))
              λ _. mapped-Parsed (advance p) _ _ (function-passes n p h)

-- There is no `eof` among the tokens that are left.
not-check-eof : (p : Parser) → NoEof p → check TokenDiscriminant.eof p ≡ false
unfolding matches_kind
not-check-eof p g = onto p.upcoming g
  where
    by_kind :
        (kind : TokenKind) → is_eof kind ≡ false → matches_kind TokenDiscriminant.eof kind ≡ false
    by_kind eof h = cc
    by_kind _ h = refl

    onto :
        (ts : List Token)
        → All (λ t. is_eof t.kind ≡ false) ts
        → (not (is_empty ts) && matches_kind TokenDiscriminant.eof (first_or p.eof_token ts).kind)
          ≡ false
    onto [] g = refl
    onto (t ∷ ts) g = by_kind t.kind g.0

-- A round goes past a token, after newlines or from one.
round-size :
    (p q r : Parser)
    → HasMore p
    → Continues p q
    → Continues (advance q) r
    → (at_end q ≡ true → size q + 1 ≤ size p)
    → size r + 1 ≤ size p
round-size p q r more c d ended = elim (Bool-cases (at_end q)) [
  | inl over ↦ omega (arith, d.0, (advance-Continues q).0, ended over)
  | inr left ↦ omega (arith, d.0, c.0, more-advance q left)
]

size-ended : (p q : Parser) → HasMore p → at_end q ≡ true → size q + 1 ≤ size p
size-ended p q more over = onto p.upcoming q.upcoming more over
  where
    onto :
        (ts us : List Token) → is_empty ts ≡ false → is_empty us ≡ true → length us + 1 ≤ length ts
    onto [] us h k = cc
    onto (t ∷ ts) [] h k = omega arith
    onto (t ∷ ts) (u ∷ us) h k = cc

-- The loop reaches the end.
abbrev pub Ended : Parser → Option (Module × Parser) → Type 0
Ended p o = (r : Module × Parser) × (o ≡ some r) × (at_end r.1 ≡ true) × Continues p r.1

pub items-Ended :
    (n : ℕ) (m : Module) (p : Parser) → NeedsFuel 29 n p → NoEof p → Ended p (parse_items n m p)
unfolding parse_items
items-Ended zero m p h g = absurd (omega (arith, h.1))
items-Ended (suc n) m p h g =
    elim_bool (Ended p) (at_end p) (λ over. ((m, p), refl, over, Continues-refl p))
      λ more.
        let q = skip_newlines p in
        let c = skip_newlines-Continues p in
        subst (Ended p)
          (sym (elim_false (check TokenDiscriminant.eof q) _ _ (not-check-eof q (c.3 g))))
          (let (r, e, d) =
              item-passes n m q (Continues-EndsClosed p q c h.0, omega (arith, h.1, c.0)) in
            let pr =
              Continues-trans p q r.1 c
                (Continues-trans q (advance q) r.1 (advance-Continues q) d) in
            let shorter = round-size p q r.1 more c d (size-ended p q more) in
            let (s, e', over, k) =
              items-Ended n r.0 r.1 (Continues-EndsClosed p r.1 pr h.0, omega (arith, h.1, shorter))
                (pr.3 g) in
            (
              s,
              ap (λ o. o >>= λ r. parse_items n r.0 r.1) e ∙ e',
              over,
              Continues-trans p r.1 s.1 pr k,
            ))

-- With fuel for thirty steps a token, and twenty-nine more, `parse_module` returns, and at the end
-- of the tokens, if the last of them opens no bracket. What it reports are errors with the codes
-- GOF2001 and GOF2002, after those that were reported before.
pub parse_module-ends :
    (p : Parser)
    → EndsClosed p
    → NoEof p
    → (r : Module × Parser) × (parse_module (30 * size p + 29) p ≡ some r)
      × (at_end r.1 ≡ true)
      × Continues p r.1
parse_module-ends p h g = items-Ended (30 * size p + 29) empty_module p (h, omega arith) g
