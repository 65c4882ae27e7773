-- ===== src/Parser/Print/Tokens.antt =====
-- What the next token decides: which operators and which loops of the parser go on.
use gof_lang.Prelude.{
  ℕ, suc, ◌≤◌, ◌≡◌, refl, ap, ◌∙◌, Bool, true, false, not, ◌&&◌, List, [], ◌∷◌, ◌++◌, none, some,
  is_empty, arith,
}
use gof_lang.Token.{TokenKind, token, r_paren, r_bracket, r_brace, comma, colon, newline}
use gof_lang.Ast.{BinaryOp}
use gof_lang.Parser.Discriminant.{TokenDiscriminant, matches_kind}
use gof_lang.Parser.State.{Parser, first_or, advance, check}
use gof_lang.Parser.Expr.{
  Level, or_level, and_level, comparison, additive, multiplicative, operator,
}
use gof_lang.Parser.Print.{rank, level_of, op_kind, no_span, Next, Reads}

-- A parser before one token of the kind.
abbrev pub sample : TokenKind → Parser
sample kind = record {
  previous = token kind no_span;
  upcoming = token kind no_span ∷ [];
  eof_token = token kind no_span;
  diagnostics = [];
}

pub check-Next :
    (d : TokenDiscriminant) (kind : TokenKind) (p : Parser)
    → Next kind p
    → check d p ≡ matches_kind d kind
check-Next d kind p (t, ts, e, f) =
    ap (λ us. not (is_empty us) && matches_kind d (first_or p.eof_token us).kind) e
    ∙ ap (matches_kind d) f

pub operator-Next :
    (level : Level) (kind : TokenKind) (p : Parser)
    → Next kind p
    → operator level p ≡ operator level (sample kind)
unfolding operator
operator-Next level kind p (t, ts, e, f) =
    ap (λ us. operator level (record p { upcoming = us })) e
    ∙ (same level ∙ ap (λ k. operator level (sample k)) f)
  where
    same :
        (level : Level)
        → operator level (record p { upcoming = t ∷ ts }) ≡ operator level (sample t.kind)
    same or_level = refl
    same and_level = refl
    same comparison = refl
    same additive = refl
    same multiplicative = refl

pub Reads-append :
    (p q : Parser) (xs ys : List TokenKind)
    → Reads p (xs ++ ys) q
    → (m : Parser) × Reads p xs m × Reads m ys q
Reads-append p q [] ys h = (p, refl, h)
Reads-append p q (x ∷ xs) ys h =
    let (m, first, later) = Reads-append (advance p) q xs ys h.1 in (m, (h.0, first), later)

-- The next token ends an expression whose operators bind at least as tightly as `context`.
abbrev pub Quiet : ℕ → Parser → Type 0
Quiet context p =
    ((level : Level) → context ≤ rank level → operator level p ≡ none)
    × (check TokenDiscriminant.l_paren p ≡ false)
    × (check TokenDiscriminant.dot p ≡ false)
    × (check TokenDiscriminant.l_bracket p ≡ false)
    × (check TokenDiscriminant.question p ≡ false)

pub Quiet-tighter : (c d : ℕ) (p : Parser) → c ≤ d → Quiet c p → Quiet d p
Quiet-tighter c d p h (o, q₁, q₂, q₃, q₄) =
    ((λ level k. o level (omega (arith, h, k))), q₁, q₂, q₃, q₄)

Quiet-Next :
    (c : ℕ) (kind : TokenKind) (p : Parser) → Next kind p → Quiet c (sample kind) → Quiet c p
Quiet-Next c kind p h (o, a, b, d, e) = (
  (λ level k. operator-Next level kind p h ∙ o level k),
  check-Next TokenDiscriminant.l_paren kind p h ∙ a,
  check-Next TokenDiscriminant.dot kind p h ∙ b,
  check-Next TokenDiscriminant.l_bracket kind p h ∙ d,
  check-Next TokenDiscriminant.question kind p h ∙ e,
)

quiet_operator :
    (op : BinaryOp) (level : Level)
    → suc (rank (level_of op)) ≤ rank level
    → operator level (sample (op_kind op)) ≡ none
unfolding operator matches_kind
quiet_operator BinaryOp.add or_level h = refl
quiet_operator BinaryOp.add and_level h = refl
quiet_operator BinaryOp.add comparison h = refl
quiet_operator BinaryOp.add additive h = absurd (omega (arith, h))
quiet_operator BinaryOp.add multiplicative h = refl
quiet_operator BinaryOp.sub or_level h = refl
quiet_operator BinaryOp.sub and_level h = refl
quiet_operator BinaryOp.sub comparison h = refl
quiet_operator BinaryOp.sub additive h = absurd (omega (arith, h))
quiet_operator BinaryOp.sub multiplicative h = refl
quiet_operator BinaryOp.mul or_level h = refl
quiet_operator BinaryOp.mul and_level h = refl
quiet_operator BinaryOp.mul comparison h = refl
quiet_operator BinaryOp.mul additive h = refl
quiet_operator BinaryOp.mul multiplicative h = absurd (omega (arith, h))
quiet_operator BinaryOp.div or_level h = refl
quiet_operator BinaryOp.div and_level h = refl
quiet_operator BinaryOp.div comparison h = refl
quiet_operator BinaryOp.div additive h = refl
quiet_operator BinaryOp.div multiplicative h = absurd (omega (arith, h))
quiet_operator BinaryOp.mod_op or_level h = refl
quiet_operator BinaryOp.mod_op and_level h = refl
quiet_operator BinaryOp.mod_op comparison h = refl
quiet_operator BinaryOp.mod_op additive h = refl
quiet_operator BinaryOp.mod_op multiplicative h = absurd (omega (arith, h))
quiet_operator BinaryOp.and_op or_level h = refl
quiet_operator BinaryOp.and_op and_level h = absurd (omega (arith, h))
quiet_operator BinaryOp.and_op comparison h = refl
quiet_operator BinaryOp.and_op additive h = refl
quiet_operator BinaryOp.and_op multiplicative h = refl
quiet_operator BinaryOp.or_op or_level h = absurd (omega (arith, h))
quiet_operator BinaryOp.or_op and_level h = refl
quiet_operator BinaryOp.or_op comparison h = refl
quiet_operator BinaryOp.or_op additive h = refl
quiet_operator BinaryOp.or_op multiplicative h = refl
quiet_operator BinaryOp.eq or_level h = refl
quiet_operator BinaryOp.eq and_level h = refl
quiet_operator BinaryOp.eq comparison h = absurd (omega (arith, h))
quiet_operator BinaryOp.eq additive h = refl
quiet_operator BinaryOp.eq multiplicative h = refl
quiet_operator BinaryOp.ne or_level h = refl
quiet_operator BinaryOp.ne and_level h = refl
quiet_operator BinaryOp.ne comparison h = absurd (omega (arith, h))
quiet_operator BinaryOp.ne additive h = refl
quiet_operator BinaryOp.ne multiplicative h = refl
quiet_operator BinaryOp.lt or_level h = refl
quiet_operator BinaryOp.lt and_level h = refl
quiet_operator BinaryOp.lt comparison h = absurd (omega (arith, h))
quiet_operator BinaryOp.lt additive h = refl
quiet_operator BinaryOp.lt multiplicative h = refl
quiet_operator BinaryOp.le or_level h = refl
quiet_operator BinaryOp.le and_level h = refl
quiet_operator BinaryOp.le comparison h = absurd (omega (arith, h))
quiet_operator BinaryOp.le additive h = refl
quiet_operator BinaryOp.le multiplicative h = refl
quiet_operator BinaryOp.gt or_level h = refl
quiet_operator BinaryOp.gt and_level h = refl
quiet_operator BinaryOp.gt comparison h = absurd (omega (arith, h))
quiet_operator BinaryOp.gt additive h = refl
quiet_operator BinaryOp.gt multiplicative h = refl
quiet_operator BinaryOp.ge or_level h = refl
quiet_operator BinaryOp.ge and_level h = refl
quiet_operator BinaryOp.ge comparison h = absurd (omega (arith, h))
quiet_operator BinaryOp.ge additive h = refl
quiet_operator BinaryOp.ge multiplicative h = refl

-- Before an operator, an operand of it that binds more tightly ends.
pub op-Quiet :
    (op : BinaryOp) (p : Parser) → Next (op_kind op) p → Quiet (suc (rank (level_of op))) p
unfolding matches_kind
op-Quiet op p h = Quiet-Next _ (op_kind op) p h (go op)
  where
    go : (op : BinaryOp) → Quiet (suc (rank (level_of op))) (sample (op_kind op))
    go BinaryOp.add = (quiet_operator BinaryOp.add, refl, refl, refl, refl)
    go BinaryOp.sub = (quiet_operator BinaryOp.sub, refl, refl, refl, refl)
    go BinaryOp.mul = (quiet_operator BinaryOp.mul, refl, refl, refl, refl)
    go BinaryOp.div = (quiet_operator BinaryOp.div, refl, refl, refl, refl)
    go BinaryOp.mod_op = (quiet_operator BinaryOp.mod_op, refl, refl, refl, refl)
    go BinaryOp.and_op = (quiet_operator BinaryOp.and_op, refl, refl, refl, refl)
    go BinaryOp.or_op = (quiet_operator BinaryOp.or_op, refl, refl, refl, refl)
    go BinaryOp.eq = (quiet_operator BinaryOp.eq, refl, refl, refl, refl)
    go BinaryOp.ne = (quiet_operator BinaryOp.ne, refl, refl, refl, refl)
    go BinaryOp.lt = (quiet_operator BinaryOp.lt, refl, refl, refl, refl)
    go BinaryOp.le = (quiet_operator BinaryOp.le, refl, refl, refl, refl)
    go BinaryOp.gt = (quiet_operator BinaryOp.gt, refl, refl, refl, refl)
    go BinaryOp.ge = (quiet_operator BinaryOp.ge, refl, refl, refl, refl)

pub op-operator :
    (op : BinaryOp) (p : Parser) → Next (op_kind op) p → operator (level_of op) p ≡ some op
unfolding operator matches_kind
op-operator op p h = operator-Next (level_of op) (op_kind op) p h ∙ go op
  where
    go : (op : BinaryOp) → operator (level_of op) (sample (op_kind op)) ≡ some op
    go BinaryOp.add = refl
    go BinaryOp.sub = refl
    go BinaryOp.mul = refl
    go BinaryOp.div = refl
    go BinaryOp.mod_op = refl
    go BinaryOp.and_op = refl
    go BinaryOp.or_op = refl
    go BinaryOp.eq = refl
    go BinaryOp.ne = refl
    go BinaryOp.lt = refl
    go BinaryOp.le = refl
    go BinaryOp.gt = refl
    go BinaryOp.ge = refl

-- Tokens that end any expression.
abbrev pub closes : TokenKind → Bool
closes r_paren = true
closes r_bracket = true
closes r_brace = true
closes comma = true
closes colon = true
closes newline = true
closes _ = false

closer_operator :
    (kind : TokenKind) (level : Level) → closes kind ≡ true → operator level (sample kind) ≡ none
unfolding operator matches_kind
closer_operator r_paren or_level h = refl
closer_operator r_paren and_level h = refl
closer_operator r_paren comparison h = refl
closer_operator r_paren additive h = refl
closer_operator r_paren multiplicative h = refl
closer_operator r_bracket or_level h = refl
closer_operator r_bracket and_level h = refl
closer_operator r_bracket comparison h = refl
closer_operator r_bracket additive h = refl
closer_operator r_bracket multiplicative h = refl
closer_operator r_brace or_level h = refl
closer_operator r_brace and_level h = refl
closer_operator r_brace comparison h = refl
closer_operator r_brace additive h = refl
closer_operator r_brace multiplicative h = refl
closer_operator comma or_level h = refl
closer_operator comma and_level h = refl
closer_operator comma comparison h = refl
closer_operator comma additive h = refl
closer_operator comma multiplicative h = refl
closer_operator colon or_level h = refl
closer_operator colon and_level h = refl
closer_operator colon comparison h = refl
closer_operator colon additive h = refl
closer_operator colon multiplicative h = refl
closer_operator newline or_level h = refl
closer_operator newline and_level h = refl
closer_operator newline comparison h = refl
closer_operator newline additive h = refl
closer_operator newline multiplicative h = refl
closer_operator _ level h = cc

pub closer-Quiet : (kind : TokenKind) (p : Parser) → closes kind ≡ true → Next kind p → Quiet 0 p
unfolding matches_kind
closer-Quiet kind p c h = Quiet-Next 0 kind p h (go kind c)
  where
    go : (kind : TokenKind) → closes kind ≡ true → Quiet 0 (sample kind)
    go r_paren h = ((λ level _. closer_operator r_paren level refl), refl, refl, refl, refl)
    go r_bracket h = ((λ level _. closer_operator r_bracket level refl), refl, refl, refl, refl)
    go r_brace h = ((λ level _. closer_operator r_brace level refl), refl, refl, refl, refl)
    go comma h = ((λ level _. closer_operator comma level refl), refl, refl, refl, refl)
    go colon h = ((λ level _. closer_operator colon level refl), refl, refl, refl, refl)
    go newline h = ((λ level _. closer_operator newline level refl), refl, refl, refl, refl)
    go _ h = cc
