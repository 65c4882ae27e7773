-- ===== src/Parser/Print/Levels.antt =====
-- From what binds tightly to what may bind less tightly: the descent of `parse_expr`.
use gof_lang.Prelude.{
  ℕ, zero, suc, ◌≤◌, ◌≡◌, refl, subst, ◌∙◌, inl, inr, Option, none, some, ltb, Bool-cases, arith,
}
use gof_lang.Ast.{Expr}
use gof_lang.Parser.Discriminant.{TokenDiscriminant}
use gof_lang.Parser.State.{Parser, check}
use gof_lang.Parser.Expr.{
  Level, or_level, and_level, comparison, additive, multiplicative, operator, parse_expr,
  parse_binary, binary_loop, parse_operand, parse_not, parse_unary, parse_postfix,
}
use gof_lang.Parser.Progress.{elim_false, elim_none}
use gof_lang.Parser.Print.{rank}
use gof_lang.Parser.Print.Tokens.{check-Next, Quiet, Quiet-tighter}
use gof_lang.Parser.Print.Yields.{Yields, Chains, Yields-same, Yields-suc, Chains-end, Chains-start}
use gof_lang.Parser.Print.Heads.{StartsPlain, StartsPlain-looser}

-- The function that parses what binds at least as tightly as `context`.
abbrev pub parse_at : ℕ → ℕ → Parser → Option (Expr × Parser)
parse_at zero n p = parse_binary n or_level p
parse_at (suc zero) n p = parse_binary n and_level p
parse_at (suc (suc zero)) n p = parse_not n p
parse_at (suc (suc (suc zero))) n p = parse_binary n comparison p
parse_at (suc (suc (suc (suc zero)))) n p = parse_binary n additive p
parse_at (suc (suc (suc (suc (suc zero))))) n p = parse_binary n multiplicative p
parse_at (suc (suc (suc (suc (suc (suc zero)))))) n p = parse_unary n p
parse_at _ n p = parse_postfix n p

pub parse_operand-suc :
    (level : Level) (n : ℕ) (p : Parser)
    → parse_operand (suc n) level p ≡ parse_at (suc (rank level)) n p
unfolding parse_expr
parse_operand-suc or_level n p = refl
parse_operand-suc and_level n p = refl
parse_operand-suc comparison n p = refl
parse_operand-suc additive n p = refl
parse_operand-suc multiplicative n p = refl

pub parse_at-rank :
    (level : Level) (n : ℕ) (p : Parser) → parse_at (rank level) n p ≡ parse_binary n level p
parse_at-rank or_level n p = refl
parse_at-rank and_level n p = refl
parse_at-rank comparison n p = refl
parse_at-rank additive n p = refl
parse_at-rank multiplicative n p = refl

binary_loop-end :
    (level : Level) (n : ℕ) (e : Expr) (q : Parser)
    → operator level q ≡ none
    → binary_loop (suc n) level e q ≡ some (e, q)
unfolding parse_expr
binary_loop-end level n e q h = elim_none (operator level q) _ _ h

module _ (good : Expr → Type 0) (p q : Parser) where
  -- An operand of a level, and the loop of the level after it.
  pub operand-Chains :
      (level : Level)
      → Yields (λ n. parse_at (suc (rank level)) n p) good q
      → Chains (λ n. parse_binary n level p) (λ n e r. binary_loop n level e r) good q
  unfolding parse_expr
  operand-Chains level y =
      Chains-start (λ n. parse_operand n level p) (λ n. parse_binary n level p) _ (λ n. refl)
        (Yields-suc (λ n. parse_at (suc (rank level)) n p) (λ n. parse_operand n level p)
          (λ n. parse_operand-suc level n p) y)

  pub binary-Yields :
      (level : Level)
      → operator level q ≡ none
      → Chains (λ n. parse_binary n level p) (λ n e r. binary_loop n level e r) good q
      → Yields (λ n. parse_at (rank level) n p) good q
  binary-Yields level h c =
      Yields-same (λ n. parse_binary n level p) (λ n. parse_at (rank level) n p)
        (λ n. parse_at-rank level n p)
        (Chains-end (λ n. parse_binary n level p) (λ n e r. binary_loop n level e r)
          (λ m a. binary_loop-end level m a q h) c)

  lift_level :
      (level : Level)
      → operator level q ≡ none
      → Yields (λ n. parse_at (suc (rank level)) n p) good q
      → Yields (λ n. parse_at (rank level) n p) good q
  lift_level level h y = binary-Yields level h (operand-Chains level y)

  lift_not :
      StartsPlain 3 p → Yields (λ n. parse_at 3 n p) good q → Yields (λ n. parse_at 2 n p) good q
  unfolding parse_expr
  lift_not (kind, next, plain) y =
      let e = check-Next TokenDiscriminant.not_kw kind p next ∙ plain.0 (omega arith) in
      Yields-suc (λ n. parse_binary n comparison p) (λ n. parse_not n p)
        (λ n. elim_false (check TokenDiscriminant.not_kw p) _ _ e) y

  lift_unary :
      StartsPlain 7 p → Yields (λ n. parse_at 7 n p) good q → Yields (λ n. parse_at 6 n p) good q
  unfolding parse_expr
  lift_unary (kind, next, plain) y =
      let (no_go, no_await, no_minus) = plain.1 (omega arith) in
      let e₁ = check-Next TokenDiscriminant.go_kw kind p next ∙ no_go in
      let e₂ = check-Next TokenDiscriminant.await_kw kind p next ∙ no_await in
      let e₃ = check-Next TokenDiscriminant.minus kind p next ∙ no_minus in
      Yields-suc (λ n. parse_postfix n p) (λ n. parse_unary n p)
        (λ n.
          elim_false (check TokenDiscriminant.go_kw p) _ _ e₁
          ∙ (elim_false (check TokenDiscriminant.await_kw p) _ _ e₂
              ∙ elim_false (check TokenDiscriminant.minus p) _ _ e₃))
        y

  lift :
      (c : ℕ)
      → StartsPlain (suc c) p
      → Quiet c q
      → Yields (λ n. parse_at (suc c) n p) good q
      → Yields (λ n. parse_at c n p) good q
  lift zero s h y = lift_level or_level (h.0 or_level (omega arith)) y
  lift (suc zero) s h y = lift_level and_level (h.0 and_level (omega arith)) y
  lift (suc (suc zero)) s h y = lift_not s y
  lift (suc (suc (suc zero))) s h y = lift_level comparison (h.0 comparison (omega arith)) y
  lift (suc (suc (suc (suc zero)))) s h y = lift_level additive (h.0 additive (omega arith)) y
  lift (suc (suc (suc (suc (suc zero))))) s h y =
      lift_level multiplicative (h.0 multiplicative (omega arith)) y
  lift (suc (suc (suc (suc (suc (suc zero)))))) s h y = lift_unary s y
  lift _ s h y = y

  pub descend :
      (c d : ℕ)
      → c ≤ d
      → StartsPlain d p
      → Quiet c q
      → Yields (λ n. parse_at d n p) good q
      → Yields (λ n. parse_at c n p) good q
  descend zero zero b s h y = y
  descend (suc c) zero b s h y = absurd (omega (arith, b))
  descend c (suc d) b s h y = elim (Bool-cases (ltb d c)) [
    | inl below ↦
        let same : suc d ≡ c = ground arith in
        subst (λ d. Yields (λ n. parse_at d n p) good q) same y
    | inr less ↦
        descend c d (ground arith) (StartsPlain-looser d (suc d) p (omega arith) s) h
          (lift d s (Quiet-tighter c d q (ground arith) h) y)
  ]
