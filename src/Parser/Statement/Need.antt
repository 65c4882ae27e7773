-- ===== src/Parser/Statement/Need.antt =====
-- What the parts of statements need, and how far they go.
use gof_lang.Prelude.{
  ℕ, zero, suc, ◌≤◌, ◌≡◌, refl, ap, Bool, true, false, ◌||◌, List, [], ◌∷◌, Option, none, some,
  Text, codes, ◌>>=◌, is_empty, length, arith,
}
use gof_lang.Source.{Span}
use gof_lang.Token.{Token}
use gof_lang.Parser.Discriminant.{TokenDiscriminant}
use gof_lang.Parser.State.{Parser, at_end, advance, advance_onto, check, expect_ident}
use gof_lang.Parser.Progress.{
  elim_bool, size, Continues, Continues-refl, Continues-trans, advance-Continues, expect-Continues,
  expect_ident-Continues, Continues-EndsClosed, Parsed, then-Parsed, from-Parsed, some-Parsed,
}
use gof_lang.Parser.Expr.Need.{NeedsFuel, past, past_later, prefix-Parsed, past_check}
use gof_lang.Parser.Statement.{open_body, body_ends}
use gof_lang.Parser.Statement.Arms.{
  skip, parse_bindings, parse_variant, parse_payload, parse_match_pattern, check_select_binding,
  select_binding,
}

abbrev pub HasMore : Parser → Type 0
HasMore p = at_end p ≡ false

pub more-advance : (p : Parser) → HasMore p → size p ≡ suc (size (advance p))
more-advance p h = onto p.upcoming refl
  where
    onto : (ts : List Token) → p.upcoming ≡ ts → size p ≡ suc (size (advance_onto ts p))
    onto [] e = cc (h, ap is_empty e)
    onto (t ∷ ts) e = ap length e

pub body_ends-HasMore : (p : Parser) → body_ends p ≡ false → HasMore p
body_ends-HasMore p h = right (check TokenDiscriminant.dedent p) (at_end p) h
  where
    right : (a b : Bool) → (a || b) ≡ false → b ≡ false
    right true b e = cc
    right false b e = e

-- The same fuel, further on.
pub along : (rank n : ℕ) (p q : Parser) → NeedsFuel rank n p → Continues p q → NeedsFuel rank n q
along rank n p q h c = (Continues-EndsClosed p q c h.0, omega (arith, h.1, c.0))

-- Past a token that is left.
pub beyond :
    (rank k n : ℕ) (p r : Parser)
    → NeedsFuel k (suc n) p
    → HasMore p
    → Continues (advance p) r
    → rank ≤ 25
    → NeedsFuel rank n r
beyond rank k n p r h more c b =
    past rank k n p (advance p) r h (more-advance p more) (advance-Continues p) c b

-- What is parsed after a token that is expected.
pub after_skip {ℓ} :
    {A : Type ℓ} (f : Parser → Option (A × Parser)) (d : TokenDiscriminant) (message : Text)
    (rank n : ℕ) (p : Parser)
    → NeedsFuel rank n p
    → ((q : Parser) → NeedsFuel rank n q → Parsed q (f q))
    → Parsed p (f (skip d message p))
after_skip f d message rank n p h k =
    let q = skip d message p in
    let c = expect-Continues d message p in from-Parsed p q (f q) c (k q (along rank n p q h c))

pub after_open {ℓ} :
    {A : Type ℓ} (f : Parser → Option (A × Parser)) (before message : Text) (rank n : ℕ)
    (p : Parser)
    → NeedsFuel rank n p
    → ((q : Parser) → NeedsFuel rank n q → Parsed q (f q))
    → Parsed p (f (open_body before message p))
after_open f before message rank n p h k =
    after_skip (λ q. f (skip TokenDiscriminant.indent message q)) TokenDiscriminant.newline before
      rank n p h (λ q g. after_skip f TokenDiscriminant.indent message rank n q g k)

-- What is parsed in a body, after a colon.
pub after_colon {ℓ} :
    {A : Type ℓ} (f : Parser → Option (A × Parser)) (head before message : Text) (rank n : ℕ)
    (p : Parser)
    → NeedsFuel rank n p
    → ((q : Parser) → NeedsFuel rank n q → Parsed q (f q))
    → Parsed p (f (open_body before message (skip TokenDiscriminant.colon head p)))
after_colon f head before message rank n p h k =
    after_skip (λ q. f (open_body before message q)) TokenDiscriminant.colon head rank n p h
      (λ q g. after_open f before message rank n q g k)

-- A token that is expected after what is parsed.
pub closed-Parsed {ℓ κ} :
    {A : Type ℓ} {B : Type κ} (p : Parser) (m : Option (A × Parser)) (f : A → B)
    (d : TokenDiscriminant) (message : Text)
    → Parsed p m
    → Parsed p (m >>= λ r. some (f r.0, skip d message r.1))
closed-Parsed p m f d message h =
    then-Parsed p m (λ r. some (f r.0, skip d message r.1)) h
      (λ r c. some-Parsed r.1 (skip d message r.1) (f r.0) (expect-Continues d message r.1))

pub parse_bindings-Parsed : (n : ℕ) (p : Parser) → NeedsFuel 1 n p → Parsed p (parse_bindings n p)
unfolding parse_bindings
parse_bindings-Parsed zero p h = absurd (omega (arith, h.1))
parse_bindings-Parsed (suc n) p h =
    let message = codes "expected a binding name in the payload match pattern" in
    let q = (expect_ident message p).1 in
    let c =
      Continues-trans p (advance p) q (advance-Continues p) (expect_ident-Continues message p) in
    from-Parsed p q _ c (
      elim_bool (Parsed q) (check TokenDiscriminant.comma q)
        (λ e. prefix-Parsed q _ _ (
          parse_bindings-Parsed n (advance q)
            (past_later 1 1 n TokenDiscriminant.comma p q h c e (omega arith))))
        (λ _. some-Parsed q q _ (Continues-refl q)))

variant_end : Text × (Text × (Span × Parser)) → Parser
variant_end (_, (_, (_, p))) = p

variant-passes : (p : Parser) → Continues (advance p) (variant_end (parse_variant p))
unfolding variant_end
variant-passes p =
    let p₁ = (expect_ident (codes "expected an enum name in match arm pattern") p).1 in
    let dot = codes "expected `.` after the enum name in match arm pattern" in
    let p₂ = skip TokenDiscriminant.dot dot p₁ in
    let message = codes "expected an enum variant name in match arm pattern" in
    let p₃ = (expect_ident message p₂).1 in
    Continues-trans (advance p) p₁ p₃
      (expect_ident-Continues (codes "expected an enum name in match arm pattern") p)
      (Continues-trans p₁ p₂ p₃ (expect-Continues TokenDiscriminant.dot dot p₁) (
        Continues-trans p₂ (advance p₂) p₃ (advance-Continues p₂)
          (expect_ident-Continues message p₂)))

payload-Parsed :
    (n : ℕ) (named : Text × (Text × (Span × Parser)))
    → NeedsFuel 2 (suc n) (variant_end named)
    → Parsed (variant_end named) (parse_payload n named)
unfolding variant_end parse_payload
payload-Parsed n (enum_name, (variant, (start, p))) h =
    elim_bool (Parsed p) (check TokenDiscriminant.l_paren p)
      (λ e. from-Parsed p (advance p) _ (advance-Continues p) (
        then-Parsed (advance p) (parse_bindings n (advance p)) _
          (parse_bindings-Parsed n (advance p)
            (past_check 1 2 n TokenDiscriminant.l_paren p h e (omega arith)))
          (λ r c.
            let message = codes "expected `)` after the payload match bindings" in
            some-Parsed r.1 (skip TokenDiscriminant.r_paren message r.1) _
              (expect-Continues TokenDiscriminant.r_paren message r.1))))
      (λ _. some-Parsed p p _ (Continues-refl p))

pub pattern-passes :
    (k n : ℕ) (p : Parser)
    → NeedsFuel k (suc n) p
    → 2 ≤ k
    → Parsed (advance p) (parse_match_pattern n p)
pattern-passes k n p h b =
    let q = variant_end (parse_variant p) in
    let c = variant-passes p in
    from-Parsed (advance p) q _ c (
      payload-Parsed n (parse_variant p) (
        along 2 (suc n) p q (h.0, omega (arith, h.1, b))
          (Continues-trans p (advance p) q (advance-Continues p) c)))

-- The binding of a select arm goes past a token if there is one.
pub binding_cases {ℓ} :
    (P : Option Text × Parser → Type ℓ) (p : Parser)
    → ((name : Text) (q : Parser) → Continues (advance p) q → P (some name, q))
    → P (none, p)
    → P (select_binding p)
binding_cases P p bound free =
    elim_bool P (check_select_binding p)
      (λ _.
        let message = codes "expected a binding name at the start of a select arm" in
        let q = (expect_ident message p).1 in
        let equal = codes "expected `=` after the select arm binding name" in
        bound (expect_ident message p).0 (skip TokenDiscriminant.equal equal q) (
          Continues-trans (advance p) q (skip TokenDiscriminant.equal equal q)
            (expect_ident-Continues message p) (expect-Continues TokenDiscriminant.equal equal q)))
      (λ _. free)
