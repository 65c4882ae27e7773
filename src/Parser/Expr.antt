-- ===== src/Parser/Expr.antt =====
-- compiler/gof-compiler/src/ast.rs: `parse_expr` and what it calls. `parse_or`, `parse_and`,
-- `parse_comparison`, `parse_additive` and `parse_multiplicative` differ in their operators and in
-- what parses an operand, so they are `parse_binary` of a level. The recursion and the loops run
-- on fuel: `none` means that it has run out.
pub mod Need
pub mod Fuel
pub mod Passes
use gof_lang.Prelude.{
  ℕ, zero, suc, Bool, true, false, List, [], ◌∷◌, Option, none, some, Text, codes, if◌then◌else◌,
  ◌>>=◌,
}
use gof_lang.Source.{Span, span}
use gof_lang.Diagnostics.{Diagnostic, error, with_fix_it}
use gof_lang.Token.{
  TokenKind, Token, ident, int_literal, string_literal, true_kw, false_kw, l_paren, l_bracket,
  l_brace,
}
use gof_lang.Ast.{BinaryOp, UnaryOp, Expr, Exprs, DictEntries, expr_span}
use gof_lang.Parser.Discriminant.{TokenDiscriminant}
use gof_lang.Parser.State.{Parser, advance, check, report, expect, expect_member_name}

-- From the start of the first to the end of the second.
abbrev pub joined : Span → Span → Span
joined start end = span start.line start.column end.end_column

pub data Level : Type 0 where
  or_level and_level comparison additive multiplicative : Level

abbrev pub comparison_operator : Parser → Option BinaryOp
comparison_operator p =
    if check TokenDiscriminant.equal_equal p
    then some BinaryOp.eq
    else if check TokenDiscriminant.bang_equal p
    then some BinaryOp.ne
    else if check TokenDiscriminant.less_equal p
    then some BinaryOp.le
    else if check TokenDiscriminant.less p
    then some BinaryOp.lt
    else if check TokenDiscriminant.greater_equal p
    then some BinaryOp.ge
    else if check TokenDiscriminant.greater p
    then some BinaryOp.gt
    else none

-- The operator that stands next, if the loop of the level goes on with it.
unfoldable pub operator : Level → Parser → Option BinaryOp
operator or_level p = if check TokenDiscriminant.or_kw p then some BinaryOp.or_op else none
operator and_level p = if check TokenDiscriminant.and_kw p then some BinaryOp.and_op else none
operator comparison p = comparison_operator p
operator additive p =
    if check TokenDiscriminant.plus p
    then some BinaryOp.add
    else if check TokenDiscriminant.minus p
    then some BinaryOp.sub
    else none
operator multiplicative p =
    if check TokenDiscriminant.star p
    then some BinaryOp.mul
    else if check TokenDiscriminant.slash p
    then some BinaryOp.div
    else if check TokenDiscriminant.percent p
    then some BinaryOp.mod_op
    else none

abbrev pub callee_diagnostic : Span → Diagnostic
callee_diagnostic span =
    with_fix_it
      (error (codes "GOF2001") (codes "only named functions can be called in the bootstrap parser")
        (codes "call expressions currently require an identifier callee") span)
      (codes "replace the callee with a function name")

-- The `match` on the callee of a call.
abbrev pub callee : Expr → Parser → Text × Parser
callee (Expr.ident name _) p = (name, p)
callee other p = (codes "_error", report (callee_diagnostic (expr_span other)) p)

abbrev pub primary_diagnostic : Span → Diagnostic
primary_diagnostic span =
    with_fix_it
      (error (codes "GOF2001") (codes "unexpected token in expression")
        (codes "expected an identifier, literal, bool, or grouped expression") span)
      (codes "replace this token with a valid expression")

unfoldable mutual
  pub parse_expr : ℕ → Parser → Option (Expr × Parser)
  parse_expr zero p = none
  parse_expr (suc n) p = parse_binary n or_level p

  pub parse_binary : ℕ → Level → Parser → Option (Expr × Parser)
  parse_binary zero level p = none
  parse_binary (suc n) level p = do (lhs, p₁) ← parse_operand n level p; binary_loop n level lhs p₁

  pub binary_loop : ℕ → Level → Expr → Parser → Option (Expr × Parser)
  binary_loop zero level lhs p = none
  binary_loop (suc n) level lhs p = elim (operator level p) [
    | none ↦ some (lhs, p)
    | some op ↦
        (parse_operand n level (advance p) >>= λ r.
        binary_loop n level (Expr.binary lhs op r.0 (joined (expr_span lhs) (expr_span r.0))) r.1)
  ]

  pub parse_operand : ℕ → Level → Parser → Option (Expr × Parser)
  parse_operand zero level p = none
  parse_operand (suc n) or_level p = parse_binary n and_level p
  parse_operand (suc n) and_level p = parse_not n p
  parse_operand (suc n) comparison p = parse_binary n additive p
  parse_operand (suc n) additive p = parse_binary n multiplicative p
  parse_operand (suc n) multiplicative p = parse_unary n p

  pub parse_not : ℕ → Parser → Option (Expr × Parser)
  parse_not zero p = none
  parse_not (suc n) p = elim (check TokenDiscriminant.not_kw p) [
    | true ↦
        (parse_not n (advance p) >>= λ r.
        some
          (Expr.unary UnaryOp.not_op r.0 (joined (advance p).previous.span (expr_span r.0)), r.1))
    | false ↦ parse_binary n comparison p
  ]

  pub parse_unary : ℕ → Parser → Option (Expr × Parser)
  parse_unary zero p = none
  parse_unary (suc n) p = elim (check TokenDiscriminant.go_kw p) [
    | true ↦
        (parse_unary n (advance p) >>= λ r.
        some (Expr.go r.0 (joined (advance p).previous.span (expr_span r.0)), r.1))
    | false ↦ elim (check TokenDiscriminant.await_kw p) [
      | true ↦
          (parse_unary n (advance p) >>= λ r.
          some (Expr.await r.0 (joined (advance p).previous.span (expr_span r.0)), r.1))
      | false ↦ elim (check TokenDiscriminant.minus p) [
        | true ↦
            (parse_unary n (advance p) >>= λ r.
            some
              (Expr.unary UnaryOp.neg r.0 (joined (advance p).previous.span (expr_span r.0)), r.1))
        | false ↦ parse_postfix n p
      ]
    ]
  ]

  pub parse_postfix : ℕ → Parser → Option (Expr × Parser)
  parse_postfix zero p = none
  parse_postfix (suc n) p = do (e, p₁) ← parse_primary n p; postfix_loop n e p₁

  pub postfix_loop : ℕ → Expr → Parser → Option (Expr × Parser)
  postfix_loop zero e p = none
  postfix_loop (suc n) e p = elim (check TokenDiscriminant.l_paren p) [
    | true ↦ parse_call n e (callee e (advance p))
    | false ↦ elim (check TokenDiscriminant.dot p) [
      | true ↦
          parse_member n e
            (expect_member_name (codes "expected a field name after `.`") (advance p))
      | false ↦ elim (check TokenDiscriminant.l_bracket p) [
        | true ↦ parse_index n e (advance p)
        | false ↦ elim (check TokenDiscriminant.question p) [
          | true ↦
              postfix_loop n (Expr.propagate e (joined (expr_span e) (advance p).previous.span))
                (advance p)
          | false ↦ some (e, p)
        ]
      ]
    ]
  ]

  -- The arms of the loop of `parse_postfix`, each with the rest of the loop.
  pub parse_call : ℕ → Expr → Text × Parser → Option (Expr × Parser)
  parse_call zero e named = none
  parse_call (suc n) e (name, p) = do
    (args, p₁) ← parse_args n p
    let (end, p₂) = expect TokenDiscriminant.r_paren (codes "expected `)` after call arguments") p₁
    postfix_loop n (Expr.call name args (joined (expr_span e) end)) p₂

  pub parse_member : ℕ → Expr → Text × Parser → Option (Expr × Parser)
  parse_member zero e named = none
  parse_member (suc n) e (name, p) = elim (check TokenDiscriminant.l_paren p) [
    | true ↦
        (parse_args n (advance p) >>= λ r.
        let (end, p₂) =
          expect TokenDiscriminant.r_paren (codes "expected `)` after method arguments") r.1 in
        postfix_loop n (Expr.method_call e name r.0 (joined (expr_span e) end)) p₂)
    | false ↦ postfix_loop n (Expr.field e name (joined (expr_span e) p.previous.span)) p
  ]

  pub parse_index : ℕ → Expr → Parser → Option (Expr × Parser)
  parse_index zero e p = none
  parse_index (suc n) e p = do
    (place, p₁) ← parse_expr n p
    let (end, p₂) =
        expect TokenDiscriminant.r_bracket (codes "expected `]` after index expression") p₁
    postfix_loop n (Expr.index e place (joined (expr_span e) end)) p₂

  pub parse_args : ℕ → Parser → Option (Exprs × Parser)
  parse_args zero p = none
  parse_args (suc n) p = elim (check TokenDiscriminant.r_paren p) [
    | true ↦ some (Exprs.nil, p)
    | false ↦ parse_exprs n p
  ]

  -- The loop of `parse_args`, and of a list literal: expressions with commas between them.
  pub parse_exprs : ℕ → Parser → Option (Exprs × Parser)
  parse_exprs zero p = none
  parse_exprs (suc n) p = do
    (e, p₁) ← parse_expr n p
    elim (check TokenDiscriminant.comma p₁) [
      | true ↦ (parse_exprs n (advance p₁) >>= λ r. some (Exprs.cons e r.0, r.1))
      | false ↦ some (Exprs.cons e Exprs.nil, p₁)
    ]

  -- The loop of a dict literal.
  pub parse_entries : ℕ → Parser → Option (DictEntries × Parser)
  parse_entries zero p = none
  parse_entries (suc n) p = do
    (key, p₁) ← parse_expr n p
    let (_, p₂) =
        expect TokenDiscriminant.colon (codes "expected `:` between dict key and value") p₁
    (value, p₃) ← parse_expr n p₂
    elim (check TokenDiscriminant.comma p₃) [
      | true ↦ (parse_entries n (advance p₃) >>= λ r. some (DictEntries.entry key value r.0, r.1))
      | false ↦ some (DictEntries.entry key value DictEntries.no_entries, p₃)
    ]

  pub parse_primary : ℕ → Parser → Option (Expr × Parser)
  parse_primary zero p = none
  parse_primary (suc n) p = parse_token n (advance p).previous.kind (advance p)

  -- The `match` of `parse_primary`, after the token.
  pub parse_token : ℕ → TokenKind → Parser → Option (Expr × Parser)
  parse_token zero kind p = none
  parse_token (suc n) (int_literal value) p = some (Expr.int value p.previous.span, p)
  parse_token (suc n) (string_literal value) p = some (Expr.string value p.previous.span, p)
  parse_token (suc n) true_kw p = some (Expr.bool true p.previous.span, p)
  parse_token (suc n) false_kw p = some (Expr.bool false p.previous.span, p)
  parse_token (suc n) (ident value) p = some (Expr.ident value p.previous.span, p)
  parse_token (suc n) l_paren p = do
    (e, p₁) ← parse_expr n p
    some (
      e,
      (expect TokenDiscriminant.r_paren (codes "expected `)` to close grouped expression") p₁).1,
    )
  parse_token (suc n) l_bracket p = do
    (items, p₁) ← parse_items n p
    let (end, p₂) = expect TokenDiscriminant.r_bracket (codes "expected `]` after list literal") p₁
    some (Expr.list items (joined p.previous.span end), p₂)
  parse_token (suc n) l_brace p = do
    (entries, p₁) ← parse_dict n p
    let (end, p₂) = expect TokenDiscriminant.r_brace (codes "expected `}` after dict literal") p₁
    some (Expr.dict entries (joined p.previous.span end), p₂)
  parse_token (suc n) _ p =
      some
        (Expr.ident (codes "_error") p.previous.span, report (primary_diagnostic p.previous.span) p)

  pub parse_items : ℕ → Parser → Option (Exprs × Parser)
  parse_items zero p = none
  parse_items (suc n) p = elim (check TokenDiscriminant.r_bracket p) [
    | true ↦ some (Exprs.nil, p)
    | false ↦ parse_exprs n p
  ]

  pub parse_dict : ℕ → Parser → Option (DictEntries × Parser)
  parse_dict zero p = none
  parse_dict (suc n) p = elim (check TokenDiscriminant.r_brace p) [
    | true ↦ some (DictEntries.no_entries, p)
    | false ↦ parse_entries n p
  ]
