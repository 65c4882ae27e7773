-- ===== src/Parser/Statement.antt =====
-- compiler/gof-compiler/src/ast.rs: `parse_stmt` and what it calls, on fuel; `none` means that it
-- has run out. `parse_block`, `parse_match_arms` and `parse_select_arms` each have a loop.
pub mod Arms
pub mod Need
pub mod Fuel
use gof_lang.Prelude.{
  ℕ, zero, suc, Bool, true, false, not, ◌&&◌, ◌||◌, List, [], ◌∷◌, Option, none, some, Text, codes,
  ◌>>=◌,
}
use gof_lang.Source.{Span}
use gof_lang.Token.{TokenKind, Token, ident, equal, colon}
use gof_lang.Ast.{Expr, expr_span}
use gof_lang.Ast.Statement.{
  TypeRef, MatchPattern, pattern_span, SelectArmKind, Stmt, Block, MatchArms, SelectArms,
}
use gof_lang.Parser.Discriminant.{TokenDiscriminant}
use gof_lang.Parser.State.{Parser, peek, at_end, advance, check, expect, expect_ident}
use gof_lang.Parser.Expr.{parse_expr}
use gof_lang.Parser.TypeRef.{parse_optional_type_ref}
use gof_lang.Parser.Statement.Arms.{
  skip, parse_match_pattern, check_ident_binding_or_assignment, select_binding,
}

abbrev pub open_body : Text → Text → Parser → Parser
open_body before message p =
    skip TokenDiscriminant.indent message (skip TokenDiscriminant.newline before p)

-- The test of the loops over the lines of a body.
abbrev pub body_ends : Parser → Bool
body_ends p = check TokenDiscriminant.dedent p || at_end p

-- An assignment without a type is an assignment, and with one a binding.
abbrev pub bind_or_assign : Text → Option TypeRef → Expr → Span → Stmt
bind_or_assign name none value span = Stmt.assign name value span
bind_or_assign name (some ty) value span = Stmt.bind name false (some ty) value span

abbrev pub parse_break : Parser → Stmt × Parser
parse_break p = (
  Stmt.break p.previous.span,
  skip TokenDiscriminant.newline (codes "expected a newline after `break`") p,
)

abbrev pub parse_continue : Parser → Stmt × Parser
parse_continue p = (
  Stmt.continue p.previous.span,
  skip TokenDiscriminant.newline (codes "expected a newline after `continue`") p,
)

-- The branches of `parse_stmt`, after the word that they start with.
unfoldable pub parse_return : ℕ → Parser → Option (Stmt × Parser)
parse_return n p = do
  (value, p₁) ← parse_expr n p
  some (
    Stmt.return value p.previous.span,
    skip TokenDiscriminant.newline (codes "expected a newline after `return`") p₁,
  )

unfoldable pub parse_mut : ℕ → Parser → Option (Stmt × Parser)
parse_mut n p = do
  let (name, p₁) = expect_ident (codes "expected an identifier after `mut`") p
  (ty, p₂) ← parse_optional_type_ref n p₁
  (value, p₃) ← parse_expr n (skip TokenDiscriminant.equal (codes "expected `=` in a binding") p₂)
  some (
    Stmt.bind name true ty value p.previous.span,
    skip TokenDiscriminant.newline (codes "expected a newline after binding") p₃,
  )

-- The branch for a name with `=` or `:` after it.
unfoldable pub parse_assignment : ℕ → Parser → Option (Stmt × Parser)
parse_assignment n p = do
  let (name, p₁) = expect_ident (codes "expected a binding target") p
  (ty, p₂) ← parse_optional_type_ref n p₁
  (value, p₃) ←
      parse_expr n
        (skip TokenDiscriminant.equal (codes "expected `=` in an assignment or binding") p₂)
  some (
    bind_or_assign name ty value p₁.previous.span,
    skip TokenDiscriminant.newline (codes "expected a newline after assignment") p₃,
  )

unfoldable pub parse_expr_stmt : ℕ → Parser → Option (Stmt × Parser)
parse_expr_stmt n p = do
  (value, p₁) ← parse_expr n p
  some (
    Stmt.expr value (expr_span value),
    skip TokenDiscriminant.newline (codes "expected a newline after expression") p₁,
  )

unfoldable mutual
  pub parse_stmt : ℕ → Parser → Option (Stmt × Parser)
  parse_stmt zero p = none
  parse_stmt (suc n) p = elim (check TokenDiscriminant.return_kw p) [
    | true ↦ parse_return n (advance p)
    | false ↦ elim (check TokenDiscriminant.if_kw p) [
      | true ↦ parse_if n (advance p)
      | false ↦ elim (check TokenDiscriminant.while_kw p) [
        | true ↦ parse_while n (advance p)
        | false ↦ elim (check TokenDiscriminant.for_kw p) [
          | true ↦ parse_for n (advance p)
          | false ↦ elim (check TokenDiscriminant.break_kw p) [
            | true ↦ some (parse_break (advance p))
            | false ↦ elim (check TokenDiscriminant.continue_kw p) [
              | true ↦ some (parse_continue (advance p))
              | false ↦ elim (check TokenDiscriminant.match_kw p) [
                | true ↦ parse_match n (advance p)
                | false ↦ elim (check TokenDiscriminant.select_kw p) [
                  | true ↦ parse_select n (advance p)
                  | false ↦ elim (check TokenDiscriminant.mut_kw p) [
                    | true ↦ parse_mut n (advance p)
                    | false ↦ elim (check_ident_binding_or_assignment p) [
                      | true ↦ parse_assignment n p
                      | false ↦ parse_expr_stmt n p
                    ]
                  ]
                ]
              ]
            ]
          ]
        ]
      ]
    ]
  ]

  pub parse_if : ℕ → Parser → Option (Stmt × Parser)
  parse_if zero p = none
  parse_if (suc n) p = do
    (condition, p₁) ← parse_expr n p
    (then_body, p₂) ←
        parse_block n (codes "expected an indented block after `if`")
          (skip TokenDiscriminant.colon (codes "expected `:` after `if` condition") p₁)
    (else_body, p₃) ← parse_else n p₂
    some (Stmt.if_stmt condition then_body else_body p.previous.span, p₃)

  pub parse_else : ℕ → Parser → Option (Block × Parser)
  parse_else zero p = none
  parse_else (suc n) p = elim (check TokenDiscriminant.else_kw p) [
    | true ↦
        parse_block n (codes "expected an indented block after `else`")
          (skip TokenDiscriminant.colon (codes "expected `:` after `else`") (advance p))
    | false ↦ some (Block.nil, p)
  ]

  pub parse_while : ℕ → Parser → Option (Stmt × Parser)
  parse_while zero p = none
  parse_while (suc n) p = do
    (condition, p₁) ← parse_expr n p
    (body, p₂) ←
        parse_block n (codes "expected an indented block after `while`")
          (skip TokenDiscriminant.colon (codes "expected `:` after `while` condition") p₁)
    some (Stmt.while condition body p.previous.span, p₂)

  pub parse_for : ℕ → Parser → Option (Stmt × Parser)
  parse_for zero p = none
  parse_for (suc n) p = do
    let (binding, p₁) = expect_ident (codes "expected a loop binding after `for`") p
    (iterable, p₂) ←
        parse_expr n
          (skip TokenDiscriminant.in_kw (codes "expected `in` after the loop binding") p₁)
    (body, p₃) ←
        parse_block n (codes "expected an indented block after `for`")
          (skip TokenDiscriminant.colon (codes "expected `:` after the `for` iterable") p₂)
    some (Stmt.for binding iterable body p.previous.span, p₃)

  pub parse_match : ℕ → Parser → Option (Stmt × Parser)
  parse_match zero p = none
  parse_match (suc n) p = do
    (value, p₁) ← parse_expr n p
    (arms, p₂) ← parse_match_arms n (
        open_body (codes "expected a newline before a match body")
          (codes "expected an indented block after `match`")
          (skip TokenDiscriminant.colon (codes "expected `:` after `match` value") p₁))
    some (
      Stmt.match value arms p.previous.span,
      skip TokenDiscriminant.dedent (codes "expected a match body dedent") p₂,
    )

  pub parse_select : ℕ → Parser → Option (Stmt × Parser)
  parse_select zero p = none
  parse_select (suc n) p = do
    (arms, p₁) ← parse_select_arms n (
        open_body (codes "expected a newline before a select body")
          (codes "expected an indented block after `select`")
          (skip TokenDiscriminant.colon (codes "expected `:` after `select`") p))
    some (
      Stmt.select arms p.previous.span,
      skip TokenDiscriminant.dedent (codes "expected a select body dedent") p₁,
    )

  pub parse_block : ℕ → Text → Parser → Option (Block × Parser)
  parse_block zero message p = none
  parse_block (suc n) message p = do
    (body, p₁) ← parse_stmts n (open_body (codes "expected a newline before a block") message p)
    some (body, skip TokenDiscriminant.dedent (codes "expected a block dedent") p₁)

  -- The loop of `parse_block`.
  pub parse_stmts : ℕ → Parser → Option (Block × Parser)
  parse_stmts zero p = none
  parse_stmts (suc n) p = elim (body_ends p) [
    | true ↦ some (Block.nil, p)
    | false ↦ (parse_stmt n p >>= λ s. (parse_stmts n s.1 >>= λ r. some (Block.cons s.0 r.0, r.1)))
  ]

  -- The loop of `parse_match_arms`, with `parse_match_arm`.
  pub parse_match_arms : ℕ → Parser → Option (MatchArms × Parser)
  parse_match_arms zero p = none
  parse_match_arms (suc n) p = elim (body_ends p) [
    | true ↦ some (MatchArms.no_arms, p)
    | false ↦
        (parse_match_pattern n p >>= λ s.
        (parse_block n (codes "expected an indented block after match arm")
            (skip TokenDiscriminant.colon (codes "expected `:` after match arm pattern") s.1)
          >>= λ b.
              (parse_match_arms n b.1 >>= λ r.
              some (MatchArms.arm s.0 b.0 (pattern_span s.0) r.0, r.1))))
  ]

  -- The loop of `parse_select_arms`.
  pub parse_select_arms : ℕ → Parser → Option (SelectArms × Parser)
  parse_select_arms zero p = none
  parse_select_arms (suc n) p = elim (body_ends p) [
    | true ↦ some (SelectArms.no_select_arms, p)
    | false ↦ (parse_select_arm n p >>= λ a. (parse_select_arms n a.1 >>= λ r. some (a.0 r.0, r.1)))
  ]

  -- The arm, as what is put before the arms that follow.
  pub parse_select_arm : ℕ → Parser → Option ((SelectArms → SelectArms) × Parser)
  parse_select_arm zero p = none
  parse_select_arm (suc n) p = elim (check TokenDiscriminant.default_kw p) [
    | true ↦
        (parse_block n (codes "expected an indented block after a select arm") (
            skip TokenDiscriminant.colon (codes "expected `:` after `default` select arm")
              (advance p))
          >>= λ b.
              some (
                SelectArms.select_arm none SelectArmKind.default b.0 (advance p).previous.span,
                b.1,
              ))
    | false ↦
        (parse_expr n (select_binding p).1 >>= λ e.
        (parse_block n (codes "expected an indented block after a select arm")
            (skip TokenDiscriminant.colon (codes "expected `:` after select arm operation") e.1)
          >>= λ b. some (
            SelectArms.select_arm (select_binding p).0 (SelectArmKind.operation e.0) b.0
                (expr_span e.0),
            b.1,
          )))
  ]
