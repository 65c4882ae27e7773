-- ===== src/Ast/Statement.antt =====
-- compiler/gof-compiler/src/ast.rs: written types, and statements.
use gof_lang.Prelude.{Bool, List, Option, Text}
use gof_lang.Source.{Span}
use gof_lang.Ast.{Expr}

mutual
  pub data TypeRef : Type 0 where
    type_ref : Text → TypeRefs → Span → TypeRef

  -- `Vec<TypeRef>`
  pub data TypeRefs : Type 0 where
    nil : TypeRefs
    cons : TypeRef → TypeRefs → TypeRefs

-- `MatchPattern::EnumVariant`
pub record MatchPattern : Type 0 where
  pub enum_name : Text
  pub variant : Text
  pub bindings : List Text
  pub span : Span

-- `MatchPattern::span`
abbrev pub pattern_span : MatchPattern → Span
pattern_span pattern = pattern.span

pub data SelectArmKind : Type 0 where
  operation : Expr → SelectArmKind
  default : SelectArmKind

mutual
  pub data Stmt : Type 0 where
    return : Expr → Span → Stmt
    bind : Text → Bool → Option TypeRef → Expr → Span → Stmt
    assign : Text → Expr → Span → Stmt
    if_stmt : Expr → Block → Block → Span → Stmt
    while : Expr → Block → Span → Stmt
    for : Text → Expr → Block → Span → Stmt
    break continue : Span → Stmt
    match : Expr → MatchArms → Span → Stmt
    select : SelectArms → Span → Stmt
    expr : Expr → Span → Stmt

  -- `Vec<Stmt>`
  pub data Block : Type 0 where
    nil : Block
    cons : Stmt → Block → Block

  -- `Vec<MatchArm>`, each arm with its pattern, its body and its span
  pub data MatchArms : Type 0 where
    no_arms : MatchArms
    arm : MatchPattern → Block → Span → MatchArms → MatchArms

  -- `Vec<SelectArm>`, each arm with its binding, its kind, its body and its span
  pub data SelectArms : Type 0 where
    no_select_arms : SelectArms
    select_arm : Option Text → SelectArmKind → Block → Span → SelectArms → SelectArms
