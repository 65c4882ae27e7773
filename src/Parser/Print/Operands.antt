-- ===== src/Parser/Print/Operands.antt =====
-- Operands in their parentheses, where they need them, and the loops that begin with one.
use gof_lang.Prelude.{
  ℕ, suc, ◌≤◌, ◌≡◌, refl, sym, ap, subst, ◌∙◌, ◌⊎◌, inl, inr, true, false, List, [], ◌∷◌, some,
  Text, ltb, ◌==◌, if_cases, Bool-cases, arith,
}
use gof_lang.Source.{Span}
use gof_lang.Token.{TokenKind, l_paren, r_paren}
use gof_lang.Ast.{BinaryOp, UnaryOp, Expr}
use gof_lang.Parser.Discriminant.{TokenDiscriminant, matches_kind}
use gof_lang.Parser.State.{Parser, check, advance, advance_onto, expect}
use gof_lang.Parser.Progress.{elim_false}
use gof_lang.Parser.Expr.{
  Level, or_level, and_level, comparison, additive, multiplicative, parse_expr, parse_binary,
  binary_loop, parse_postfix, postfix_loop, parse_primary, parse_token,
}
use gof_lang.Parser.Print.{
  rank, level_of, prec, prefix_rank, in_parens, bracket, print, erase, Next, Reads,
}
use gof_lang.Parser.Print.Tokens.{Reads-append, check-Next, Quiet, Quiet-tighter, closer-Quiet}
use gof_lang.Parser.Print.Yields.{Yields, Chains, Yields-suc, Yields-map, Chains-end, Chains-start}
use gof_lang.Parser.Print.Heads.{StartsPlain, print-StartsPlain}
use gof_lang.Parser.Print.Levels.{parse_at, operand-Chains, binary-Yields, descend}

-- The same expression, but for positions.
abbrev pub Same : Expr → Expr → Type 0
Same e r = erase r ≡ erase e

abbrev pub ParsesAt : ℕ → Expr → Parser → Parser → Type 0
ParsesAt c e p q = Yields (λ n. parse_at c n p) (Same e) q

abbrev pub PostChains : Expr → Parser → Parser → Type 0
PostChains e p q = Chains (λ n. parse_postfix n p) (λ n a r. postfix_loop n a r) (Same e) q

abbrev pub LevelChains : Level → Expr → Parser → Parser → Type 0
LevelChains level e p q =
    Chains (λ n. parse_binary n level p) (λ n a r. binary_loop n level a r) (Same e) q

-- What is shown of each expression, in no parentheses.
abbrev pub OwnGives : Expr → Parser → Parser → Type 0
OwnGives (Expr.binary l op r s) p q =
    Quiet (suc (rank (level_of op))) q → LevelChains (level_of op) (Expr.binary l op r s) p q
OwnGives (Expr.unary op v s) p q =
    Quiet (prefix_rank op) q → ParsesAt (prefix_rank op) (Expr.unary op v s) p q
OwnGives (Expr.go v s) p q = Quiet 6 q → ParsesAt 6 (Expr.go v s) p q
OwnGives (Expr.await v s) p q = Quiet 6 q → ParsesAt 6 (Expr.await v s) p q
OwnGives e p q = check TokenDiscriminant.l_paren q ≡ false → PostChains e p q

abbrev pub Own : Expr → Type 0
Own e = (p q : Parser) → Reads p (print e) q → OwnGives e p q

pub previous-Next : (kind : TokenKind) (p : Parser) → Next kind p → (advance p).previous.kind ≡ kind
previous-Next kind p (t, ts, e, f) = ap (λ us. (advance_onto us p).previous.kind) e ∙ f

pub expect-Next :
    (d : TokenDiscriminant) (message : Text) (kind : TokenKind) (p : Parser)
    → Next kind p
    → matches_kind d kind ≡ true
    → (expect d message p).1 ≡ advance p
unfolding expect
expect-Next d message kind p next h =
    if_cases (λ (r : Span × Parser). r.1 ≡ advance p) (check d p) (λ _. refl)
      (λ no. let yes = check-Next d kind p next ∙ h in cc)

pub parse_primary-suc :
    (kind : TokenKind) (p : Parser) (n : ℕ)
    → Next kind p
    → parse_primary (suc n) p ≡ parse_token n kind (advance p)
unfolding parse_expr
parse_primary-suc kind p n next = ap (λ k. parse_token n k (advance p)) (previous-Next kind p next)

pub postfix_loop-end :
    (c n : ℕ) (e : Expr) (q : Parser) → Quiet c q → postfix_loop (suc n) e q ≡ some (e, q)
unfolding parse_expr
postfix_loop-end c n e q (_, a, b, d, f) =
    elim_false (check TokenDiscriminant.l_paren q) _ _ a
    ∙ (elim_false (check TokenDiscriminant.dot q) _ _ b
        ∙ (elim_false (check TokenDiscriminant.l_bracket q) _ _ d
            ∙ elim_false (check TokenDiscriminant.question q) _ _ f))

pub primary-Chains :
    (e : Expr) (p q : Parser) → Yields (λ n. parse_primary n p) (Same e) q → PostChains e p q
unfolding parse_expr
primary-Chains e p q y =
    Chains-start (λ n. parse_primary n p) (λ n. parse_postfix n p) (λ n a r. postfix_loop n a r)
      (λ n. refl) y

pub post-ParsesAt :
    (c : ℕ) (e : Expr) (p q : Parser) → Quiet c q → PostChains e p q → ParsesAt 7 e p q
post-ParsesAt c e p q h y =
    Chains-end (λ n. parse_postfix n p) (λ n a r. postfix_loop n a r)
      (λ m a. postfix_loop-end c m a q h) y

own-ParsesAt :
    (e : Expr) (p q : Parser) → OwnGives e p q → Quiet (prec e) q → ParsesAt (prec e) e p q
own-ParsesAt (Expr.binary l op r s) p q o h =
    binary-Yields (Same (Expr.binary l op r s)) p q (level_of op) (h.0 (level_of op) (omega arith))
      (o (Quiet-tighter (rank (level_of op)) (suc (rank (level_of op))) q (omega arith) h))
own-ParsesAt (Expr.unary UnaryOp.not_op v s) p q o h = o h
own-ParsesAt (Expr.unary UnaryOp.neg v s) p q o h = o h
own-ParsesAt (Expr.go v s) p q o h = o h
own-ParsesAt (Expr.await v s) p q o h = o h
own-ParsesAt (Expr.int v s) p q o h = post-ParsesAt 7 _ p q h (o h.1)
own-ParsesAt (Expr.string v s) p q o h = post-ParsesAt 7 _ p q h (o h.1)
own-ParsesAt (Expr.bool v s) p q o h = post-ParsesAt 7 _ p q h (o h.1)
own-ParsesAt (Expr.ident v s) p q o h = post-ParsesAt 7 _ p q h (o h.1)
own-ParsesAt (Expr.list v s) p q o h = post-ParsesAt 7 _ p q h (o h.1)
own-ParsesAt (Expr.dict v s) p q o h = post-ParsesAt 7 _ p q h (o h.1)
own-ParsesAt (Expr.call n v s) p q o h = post-ParsesAt 7 _ p q h (o h.1)
own-ParsesAt (Expr.field v n s) p q o h = post-ParsesAt 7 _ p q h (o h.1)
own-ParsesAt (Expr.method_call v n a s) p q o h = post-ParsesAt 7 _ p q h (o h.1)
own-ParsesAt (Expr.index v i s) p q o h = post-ParsesAt 7 _ p q h (o h.1)
own-ParsesAt (Expr.propagate v s) p q o h = post-ParsesAt 7 _ p q h (o h.1)

pub bare-ParsesAt :
    (c : ℕ) (e : Expr) (p q : Parser)
    → Own e
    → c ≤ prec e
    → Reads p (print e) q
    → Quiet c q
    → ParsesAt c e p q
bare-ParsesAt c e p q o b r h =
    descend (Same e) p q c (prec e) b (print-StartsPlain e p q r) h
      (own-ParsesAt e p q (o p q r) (Quiet-tighter c (prec e) q b h))

pub expr-Yields :
    (e : Expr) (p q : Parser)
    → Own e
    → Reads p (print e) q
    → Quiet 0 q
    → Yields (λ n. parse_expr n p) (Same e) q
unfolding parse_expr
expr-Yields e p q o r h =
    Yields-suc (λ n. parse_at 0 n p) (λ n. parse_expr n p) (λ n. refl)
      (bare-ParsesAt 0 e p q o (omega arith) r h)

parens-Chains :
    (e : Expr) (p q : Parser) → Own e → Reads p (in_parens (print e)) q → PostChains e p q
unfolding parse_expr matches_kind
parens-Chains e p q o (open_, r) =
    let (m, inner, (close_, end)) = Reads-append (advance p) q (print e) (r_paren ∷ []) r in
    primary-Chains e p q (
      Yields-suc (λ n. parse_token n l_paren (advance p)) (λ n. parse_primary n p)
        (λ n. parse_primary-suc l_paren p n open_)
        (Yields-map (λ n. parse_expr n (advance p)) (λ n. parse_token n l_paren (advance p)) _
          (λ a. a) (λ a g. g)
          (λ a.
            ap (λ s. some (a, s))
              (expect-Next TokenDiscriminant.r_paren _ r_paren m close_ refl ∙ sym end))
          (λ n. refl) (expr-Yields e (advance p) m o inner (closer-Quiet r_paren m refl close_))))

parens-StartsPlain :
    (p q : Parser) (ks : List TokenKind) → Reads p (in_parens ks) q → StartsPlain 7 p
unfolding matches_kind
parens-StartsPlain p q ks h = (l_paren, h.0, ((λ _. refl), (λ _. (refl, refl, refl)), refl))

parens-ParsesAt :
    (c : ℕ) (e : Expr) (p q : Parser)
    → Own e
    → c ≤ 7
    → Reads p (in_parens (print e)) q
    → Quiet c q
    → ParsesAt c e p q
parens-ParsesAt c e p q o b r h =
    descend (Same e) p q c 7 b (parens-StartsPlain p q (print e) r) h
      (post-ParsesAt c e p q h (parens-Chains e p q o r))

-- An operand of something that binds with `c`.
pub operand-ParsesAt :
    (c : ℕ) (e : Expr) (p q : Parser)
    → Own e
    → c ≤ 7
    → Reads p (bracket c (prec e) (print e)) q
    → Quiet c q
    → ParsesAt c e p q
operand-ParsesAt c e p q o b r h =
    if_cases (λ ks. Reads p ks q → ParsesAt c e p q) (ltb (prec e) c)
      (λ _ r. parens-ParsesAt c e p q o b r h)
      (λ tight r. bare-ParsesAt c e p q o (ground arith) r h) r

own_post :
    (e : Expr) (p q : Parser)
    → 7 ≤ prec e
    → OwnGives e p q
    → check TokenDiscriminant.l_paren q ≡ false
    → PostChains e p q
own_post (Expr.binary l op r s) p q b o h = absurd (loose op b)
  where
    loose : (op : BinaryOp) → 7 ≤ rank (level_of op) → ⊥
    loose BinaryOp.add b = omega (arith, b)
    loose BinaryOp.sub b = omega (arith, b)
    loose BinaryOp.mul b = omega (arith, b)
    loose BinaryOp.div b = omega (arith, b)
    loose BinaryOp.mod_op b = omega (arith, b)
    loose BinaryOp.and_op b = omega (arith, b)
    loose BinaryOp.or_op b = omega (arith, b)
    loose BinaryOp.eq b = omega (arith, b)
    loose BinaryOp.ne b = omega (arith, b)
    loose BinaryOp.lt b = omega (arith, b)
    loose BinaryOp.le b = omega (arith, b)
    loose BinaryOp.gt b = omega (arith, b)
    loose BinaryOp.ge b = omega (arith, b)
own_post (Expr.unary UnaryOp.not_op v s) p q b o h = absurd (omega (arith, b))
own_post (Expr.unary UnaryOp.neg v s) p q b o h = absurd (omega (arith, b))
own_post (Expr.go v s) p q b o h = absurd (omega (arith, b))
own_post (Expr.await v s) p q b o h = absurd (omega (arith, b))
own_post (Expr.int v s) p q b o h = o h
own_post (Expr.string v s) p q b o h = o h
own_post (Expr.bool v s) p q b o h = o h
own_post (Expr.ident v s) p q b o h = o h
own_post (Expr.list v s) p q b o h = o h
own_post (Expr.dict v s) p q b o h = o h
own_post (Expr.call n v s) p q b o h = o h
own_post (Expr.field v n s) p q b o h = o h
own_post (Expr.method_call v n a s) p q b o h = o h
own_post (Expr.index v i s) p q b o h = o h
own_post (Expr.propagate v s) p q b o h = o h

-- What a postfix follows.
pub target-Chains :
    (e : Expr) (p q : Parser)
    → Own e
    → Reads p (bracket 7 (prec e) (print e)) q
    → check TokenDiscriminant.l_paren q ≡ false
    → PostChains e p q
target-Chains e p q o r h =
    if_cases (λ ks. Reads p ks q → PostChains e p q) (ltb (prec e) 7)
      (λ _ r. parens-Chains e p q o r) (λ tight r. own_post e p q (ground arith) (o p q r) h) r

rank-injective : (a b : Level) → rank a ≡ rank b → a ≡ b
rank-injective or_level or_level h = refl
rank-injective or_level and_level h = absurd (omega (arith, h))
rank-injective or_level comparison h = absurd (omega (arith, h))
rank-injective or_level additive h = absurd (omega (arith, h))
rank-injective or_level multiplicative h = absurd (omega (arith, h))
rank-injective and_level or_level h = absurd (omega (arith, h))
rank-injective and_level and_level h = refl
rank-injective and_level comparison h = absurd (omega (arith, h))
rank-injective and_level additive h = absurd (omega (arith, h))
rank-injective and_level multiplicative h = absurd (omega (arith, h))
rank-injective comparison or_level h = absurd (omega (arith, h))
rank-injective comparison and_level h = absurd (omega (arith, h))
rank-injective comparison comparison h = refl
rank-injective comparison additive h = absurd (omega (arith, h))
rank-injective comparison multiplicative h = absurd (omega (arith, h))
rank-injective additive or_level h = absurd (omega (arith, h))
rank-injective additive and_level h = absurd (omega (arith, h))
rank-injective additive comparison h = absurd (omega (arith, h))
rank-injective additive additive h = refl
rank-injective additive multiplicative h = absurd (omega (arith, h))
rank-injective multiplicative or_level h = absurd (omega (arith, h))
rank-injective multiplicative and_level h = absurd (omega (arith, h))
rank-injective multiplicative comparison h = absurd (omega (arith, h))
rank-injective multiplicative additive h = absurd (omega (arith, h))
rank-injective multiplicative multiplicative h = refl

top_rank : (level : Level) → rank level ≤ 5
top_rank or_level = omega arith
top_rank and_level = omega arith
top_rank comparison = omega arith
top_rank additive = omega arith
top_rank multiplicative = omega arith

-- An operand that binds as tightly as the level is one of the level, or binds more tightly.
own_level :
    (level : Level) (e : Expr) (p q : Parser)
    → rank level ≤ prec e
    → OwnGives e p q
    → Quiet (suc (rank level)) q
    → LevelChains level e p q ⊎ (suc (rank level) ≤ prec e)
own_level level (Expr.binary l op r s) p q b o h =
    elim (Bool-cases (rank (level_of op) == rank level)) [
      | inl same ↦ inl (
          let equal = rank-injective (level_of op) level (ground arith) in
          subst (λ k. LevelChains k (Expr.binary l op r s) p q) equal
            (o (subst (λ k. Quiet (suc (rank k)) q) (sym equal) h)))
      | inr other ↦ inr (ground arith)
    ]
own_level level (Expr.unary UnaryOp.not_op v s) p q b o h = inr (between level b)
  where
    between : (level : Level) → rank level ≤ 2 → suc (rank level) ≤ 2
    between or_level b = omega (arith, b)
    between and_level b = omega (arith, b)
    between comparison b = omega (arith, b)
    between additive b = omega (arith, b)
    between multiplicative b = omega (arith, b)
own_level level (Expr.int v s) p q b o h = inr (omega (arith, top_rank level))
own_level level (Expr.string v s) p q b o h = inr (omega (arith, top_rank level))
own_level level (Expr.bool v s) p q b o h = inr (omega (arith, top_rank level))
own_level level (Expr.ident v s) p q b o h = inr (omega (arith, top_rank level))
own_level level (Expr.list v s) p q b o h = inr (omega (arith, top_rank level))
own_level level (Expr.dict v s) p q b o h = inr (omega (arith, top_rank level))
own_level level (Expr.call n v s) p q b o h = inr (omega (arith, top_rank level))
own_level level (Expr.field v n s) p q b o h = inr (omega (arith, top_rank level))
own_level level (Expr.method_call v n a s) p q b o h = inr (omega (arith, top_rank level))
own_level level (Expr.index v i s) p q b o h = inr (omega (arith, top_rank level))
own_level level (Expr.propagate v s) p q b o h = inr (omega (arith, top_rank level))
own_level level (Expr.go v s) p q b o h = inr (omega (arith, top_rank level))
own_level level (Expr.await v s) p q b o h = inr (omega (arith, top_rank level))
own_level level (Expr.unary UnaryOp.neg v s) p q b o h = inr (omega (arith, top_rank level))

-- The left operand of an operator of the level.
pub left-Chains :
    (level : Level) (e : Expr) (p q : Parser)
    → Own e
    → Reads p (bracket (rank level) (prec e) (print e)) q
    → Quiet (suc (rank level)) q
    → LevelChains level e p q
left-Chains level e p q o r h =
    if_cases (λ ks. Reads p ks q → LevelChains level e p q) (ltb (prec e) (rank level))
      (λ _ r.
        operand-Chains (Same e) p q level
          (parens-ParsesAt (suc (rank level)) e p q o (omega (arith, top_rank level)) r h))
      (λ tight r. elim (own_level level e p q (ground arith) (o p q r) h) [
        | inl chain ↦ chain
        | inr tighter ↦
            operand-Chains (Same e) p q level (bare-ParsesAt (suc (rank level)) e p q o tighter r h)
      ])
      r
