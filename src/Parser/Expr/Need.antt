-- ===== src/Parser/Expr/Need.antt =====
-- The fuel that the parts of `parse_expr` need, by the tokens that are left.
use gof_lang.Prelude.{
  ℕ, suc, ◌+◌, ◌*◌, ◌≤◌, ◌≡◌, refl, sym, ap, subst, true, false, List, [], ◌∷◌, Option, none, some,
  ◌>>=◌, length, arith, inl,
}
use gof_lang.Source.{Span}
use gof_lang.Token.{TokenKind, Token}
use gof_lang.Ast.{BinaryOp, Expr}
use gof_lang.Parser.Discriminant.{TokenDiscriminant}
use gof_lang.Parser.State.{Parser, advance, advance_onto, check, report}
use gof_lang.Parser.Progress.{
  size, last_or, Continues, Continues-refl, Continues-trans, advance-Continues, check-advance,
  report-Continues, is_opener, EndsClosed, Continues-EndsClosed, Parsed, then-Parsed, from-Parsed,
  some-Parsed,
}
use gof_lang.Parser.Expr.{
  Level, or_level, and_level, comparison, additive, multiplicative, operator, callee,
  callee_diagnostic,
}

not_named : (span : Span) (p : Parser) → Continues p (report (callee_diagnostic span) p)
not_named span p = report-Continues (callee_diagnostic span) p (refl, inl refl)

pub callee-Continues : (e : Expr) (p : Parser) → Continues p (callee e p).1
callee-Continues (Expr.ident _ _) p = Continues-refl p
callee-Continues (Expr.int _ _) p = not_named _ p
callee-Continues (Expr.string _ _) p = not_named _ p
callee-Continues (Expr.bool _ _) p = not_named _ p
callee-Continues (Expr.list _ _) p = not_named _ p
callee-Continues (Expr.dict _ _) p = not_named _ p
callee-Continues (Expr.call _ _ _) p = not_named _ p
callee-Continues (Expr.field _ _ _) p = not_named _ p
callee-Continues (Expr.method_call _ _ _ _) p = not_named _ p
callee-Continues (Expr.index _ _ _) p = not_named _ p
callee-Continues (Expr.go _ _) p = not_named _ p
callee-Continues (Expr.await _ _) p = not_named _ p
callee-Continues (Expr.propagate _ _) p = not_named _ p
callee-Continues (Expr.unary _ _ _) p = not_named _ p
callee-Continues (Expr.binary _ _ _ _) p = not_named _ p

-- At the end there is no operator.
operator-end : (level : Level) (p : Parser) → p.upcoming ≡ [] → operator level p ≡ none
unfolding operator
operator-end level p h =
    subst (λ ts. operator level (record p { upcoming = ts }) ≡ none) (sym h) (at level)
  where
    at : (level : Level) → operator level (record p { upcoming = [] }) ≡ none
    at or_level = refl
    at and_level = refl
    at comparison = refl
    at additive = refl
    at multiplicative = refl

pub operator-advance :
    (level : Level) (p : Parser) {op : BinaryOp}
    → operator level p ≡ some op
    → size p ≡ suc (size (advance p))
operator-advance level p h = onto p.upcoming refl
  where
    onto : (ts : List Token) → p.upcoming ≡ ts → length p.upcoming ≡ suc (size (advance_onto ts p))
    onto [] e = let ends = operator-end level p e in cc
    onto (t ∷ ts) e = ap length e

-- How many steps an operand of the level takes without a token.
abbrev pub operand_rank : Level → ℕ
operand_rank or_level = 14
operand_rank and_level = 12
operand_rank comparison = 9
operand_rank additive = 7
operand_rank multiplicative = 5

abbrev pub NeedsFuel : ℕ → ℕ → Parser → Type 0
NeedsFuel rank n p = EndsClosed p × (30 * size p + rank ≤ n)

-- The same token on, with less rank.
pub within_rank :
    (rank k n : ℕ) (p : Parser) → NeedsFuel k (suc n) p → rank + 1 ≤ k → NeedsFuel rank n p
within_rank rank k n p h r = (h.0, omega (arith, h.1, r))

-- Further on.
pub further :
    (rank k n : ℕ) (p q : Parser)
    → NeedsFuel k (suc n) p
    → Continues p q
    → rank + 1 ≤ k
    → NeedsFuel rank n q
further rank k n p q h c r = (Continues-EndsClosed p q c h.0, omega (arith, h.1, r, c.0))

-- Past a token.
pub past :
    (rank k n : ℕ) (p q r : Parser)
    → NeedsFuel k (suc n) p
    → size p ≡ suc (size q)
    → Continues p q
    → Continues q r
    → rank ≤ 25
    → NeedsFuel rank n r
past rank k n p q r h e c d b =
    (Continues-EndsClosed p r (Continues-trans p q r c d) h.0, omega (arith, h.1, e, d.0, b))

pub past_check :
    (rank k n : ℕ) (d : TokenDiscriminant) (p : Parser)
    → NeedsFuel k (suc n) p
    → check d p ≡ true
    → rank ≤ 25
    → NeedsFuel rank n (advance p)
past_check rank k n d p h e b =
    past rank k n p (advance p) (advance p) h (check-advance d p e) (advance-Continues p)
      (Continues-refl (advance p)) b

pub past_later :
    (rank k n : ℕ) (d : TokenDiscriminant) (p q : Parser)
    → NeedsFuel k (suc n) p
    → Continues p q
    → check d q ≡ true
    → rank ≤ 25
    → NeedsFuel rank n (advance q)
past_later rank k n d p q h c e b = (
  Continues-EndsClosed p (advance q) (Continues-trans p q (advance q) c (advance-Continues q)) h.0,
  omega (arith, h.1, check-advance d q e, c.0, b),
)

-- What has been parsed, with a function on it.
pub mapped-Parsed {ℓ κ} :
    {A : Type ℓ} {B : Type κ} (p : Parser) (m : Option (A × Parser)) (f : A → B)
    → Parsed p m
    → Parsed p (m >>= λ r. some (f r.0, r.1))
mapped-Parsed p m f h =
    then-Parsed p m (λ r. some (f r.0, r.1)) h
      (λ r c. some-Parsed r.1 r.1 (f r.0) (Continues-refl r.1))

-- A token before what has been parsed.
pub prefix-Parsed {ℓ κ} :
    {A : Type ℓ} {B : Type κ} (p : Parser) (m : Option (A × Parser)) (f : A → B)
    → Parsed (advance p) m
    → Parsed p (m >>= λ r. some (f r.0, r.1))
prefix-Parsed p m f h =
    from-Parsed p (advance p) _ (advance-Continues p) (mapped-Parsed (advance p) m f h)

pub rank_pos : (level : Level) → 2 ≤ operand_rank level
rank_pos or_level = omega arith
rank_pos and_level = omega arith
rank_pos comparison = omega arith
rank_pos additive = omega arith
rank_pos multiplicative = omega arith

pub rank_bound : (level : Level) → operand_rank level ≤ 25
rank_bound or_level = omega arith
rank_bound and_level = omega arith
rank_bound comparison = omega arith
rank_bound additive = omega arith
rank_bound multiplicative = omega arith

-- For what follows a token: one step, or as for brackets, if the token opens one.
abbrev pub TokenFuel : ℕ → TokenKind → Parser → Type 0
TokenFuel n kind p = (1 ≤ n) × (is_opener kind ≡ true → NeedsFuel 19 n p)

pub opened :
    (n : ℕ) (p : Parser) → NeedsFuel 2 (suc n) p → TokenFuel n (advance p).previous.kind (advance p)
opened n p h = onto p.upcoming refl
  where
    onto :
        (ts : List Token)
        → p.upcoming ≡ ts
        → TokenFuel n (advance_onto ts p).previous.kind (advance_onto ts p)
    onto [] e = (
      omega (arith, h.1),
      λ opens.
          let closed = subst (λ ts. is_opener (last_or p.previous ts).kind ≡ false) e h.0 in cc,
    )
    onto (t ∷ ts) e = (
      omega (arith, h.1),
      λ opens. (
        subst (λ us. is_opener (last_or p.previous us).kind ≡ false) e h.0,
        omega (arith, h.1, ap length e),
      ),
    )
