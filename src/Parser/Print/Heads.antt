-- ===== src/Parser/Print/Heads.antt =====
-- The first token of an expression.
use gof_lang.Prelude.{ℕ, ◌≤◌, ◌≡◌, refl, ◌∙◌, true, false, List, ltb, if_cases, arith}
use gof_lang.Token.{TokenKind, l_paren, r_paren, r_bracket, r_brace}
use gof_lang.Ast.{UnaryOp, Expr}
use gof_lang.Parser.Discriminant.{TokenDiscriminant, matches_kind}
use gof_lang.Parser.State.{Parser, check}
use gof_lang.Parser.Print.{rank, level_of, prec, bracket, print, Next, Reads}
use gof_lang.Parser.Print.Tokens.{Reads-append, closes, check-Next}

-- The token is no prefix operator that binds less tightly than `context`.
abbrev pub IsPlain : ℕ → TokenKind → Type 0
IsPlain context kind =
    (3 ≤ context → matches_kind TokenDiscriminant.not_kw kind ≡ false)
    × (7 ≤ context
        → (matches_kind TokenDiscriminant.go_kw kind ≡ false)
          × (matches_kind TokenDiscriminant.await_kw kind ≡ false)
          × (matches_kind TokenDiscriminant.minus kind ≡ false))
    × (closes kind ≡ false)

abbrev pub StartsPlain : ℕ → Parser → Type 0
StartsPlain context p = (kind : TokenKind) × Next kind p × IsPlain context kind

pub StartsPlain-looser : (c d : ℕ) (p : Parser) → c ≤ d → StartsPlain d p → StartsPlain c p
StartsPlain-looser c d p h (k, n, (a, b, c')) =
    (k, n, ((λ m. a (omega (arith, h, m))), (λ m. b (omega (arith, h, m))), c'))

bracket-StartsPlain :
    (c d : ℕ) (ks : List TokenKind) (p q : Parser)
    → ((q : Parser) → Reads p ks q → StartsPlain d p)
    → Reads p (bracket c d ks) q
    → StartsPlain c p
unfolding matches_kind
bracket-StartsPlain c d ks p q h =
    if_cases (λ us. Reads p us q → StartsPlain c p) (ltb d c)
      (λ _ r. (l_paren, r.0, ((λ _. refl), (λ _. (refl, refl, refl)), refl)))
      (λ e r. StartsPlain-looser c d p (ground arith) (h q r))

pub print-StartsPlain : (e : Expr) (p q : Parser) → Reads p (print e) q → StartsPlain (prec e) p
unfolding print matches_kind
print-StartsPlain (Expr.int v _) p q h = (_, h.0, ((λ _. refl), (λ _. (refl, refl, refl)), refl))
print-StartsPlain (Expr.string v _) p q h = (_, h.0, ((λ _. refl), (λ _. (refl, refl, refl)), refl))
print-StartsPlain (Expr.bool true _) p q h =
    (_, h.0, ((λ _. refl), (λ _. (refl, refl, refl)), refl))
print-StartsPlain (Expr.bool false _) p q h =
    (_, h.0, ((λ _. refl), (λ _. (refl, refl, refl)), refl))
print-StartsPlain (Expr.ident v _) p q h = (_, h.0, ((λ _. refl), (λ _. (refl, refl, refl)), refl))
print-StartsPlain (Expr.list v _) p q h = (_, h.0, ((λ _. refl), (λ _. (refl, refl, refl)), refl))
print-StartsPlain (Expr.dict v _) p q h = (_, h.0, ((λ _. refl), (λ _. (refl, refl, refl)), refl))
print-StartsPlain (Expr.call n v _) p q h = (_, h.0, ((λ _. refl), (λ _. (refl, refl, refl)), refl))
print-StartsPlain (Expr.field e n _) p q h =
    let (m, first, _) = Reads-append p q (bracket 7 (prec e) (print e)) _ h in
    bracket-StartsPlain 7 (prec e) (print e) p m (print-StartsPlain e p) first
print-StartsPlain (Expr.method_call e n v _) p q h =
    let (m, first, _) = Reads-append p q (bracket 7 (prec e) (print e)) _ h in
    bracket-StartsPlain 7 (prec e) (print e) p m (print-StartsPlain e p) first
print-StartsPlain (Expr.index e i _) p q h =
    let (m, first, _) = Reads-append p q (bracket 7 (prec e) (print e)) _ h in
    bracket-StartsPlain 7 (prec e) (print e) p m (print-StartsPlain e p) first
print-StartsPlain (Expr.propagate e _) p q h =
    let (m, first, _) = Reads-append p q (bracket 7 (prec e) (print e)) _ h in
    bracket-StartsPlain 7 (prec e) (print e) p m (print-StartsPlain e p) first
print-StartsPlain (Expr.go e _) p q h =
    (_, h.0, ((λ _. refl), (λ m. absurd (omega (arith, m))), refl))
print-StartsPlain (Expr.await e _) p q h =
    (_, h.0, ((λ _. refl), (λ m. absurd (omega (arith, m))), refl))
print-StartsPlain (Expr.unary UnaryOp.neg e _) p q h =
    (_, h.0, ((λ _. refl), (λ m. absurd (omega (arith, m))), refl))
print-StartsPlain (Expr.unary UnaryOp.not_op e _) p q h =
    (_, h.0, ((λ m. absurd (omega (arith, m))), (λ m. absurd (omega (arith, m))), refl))
print-StartsPlain (Expr.binary l op r _) p q h =
    let c = rank (level_of op) in
    let (m, first, _) = Reads-append p q (bracket c (prec l) (print l)) _ h in
    bracket-StartsPlain c (prec l) (print l) p m (print-StartsPlain l p) first

pub StartsPlain-opens :
    (c : ℕ) (p : Parser)
    → StartsPlain c p
    → (check TokenDiscriminant.r_paren p ≡ false)
      × (check TokenDiscriminant.r_bracket p ≡ false)
      × (check TokenDiscriminant.r_brace p ≡ false)
unfolding matches_kind
StartsPlain-opens c p (kind, next, plain) =
    let (a, b, d) = none_of kind plain.2 in
    (
      check-Next TokenDiscriminant.r_paren kind p next ∙ a,
      check-Next TokenDiscriminant.r_bracket kind p next ∙ b,
      check-Next TokenDiscriminant.r_brace kind p next ∙ d,
    )
  where
    none_of :
        (kind : TokenKind)
        → closes kind ≡ false
        → (matches_kind TokenDiscriminant.r_paren kind ≡ false)
          × (matches_kind TokenDiscriminant.r_bracket kind ≡ false)
          × (matches_kind TokenDiscriminant.r_brace kind ≡ false)
    none_of r_paren h = cc
    none_of r_bracket h = cc
    none_of r_brace h = cc
    none_of _ h = (refl, refl, refl)
