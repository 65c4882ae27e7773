-- ===== src/Hir.antt =====
-- compiler/gof-compiler/src/hir.rs: the program before its types are checked. A list inside a tree
-- of its own type is a type of the `mutual` block.
pub mod Lower
pub mod Raise
pub mod Lossless
mod Tests
use gof_lang.Prelude.{ℕ, ℤ, Bool, List, Option, Text}
use gof_lang.Source.{Span}
use gof_lang.Ast.{BinaryOp, UnaryOp, FunctionKind}
use gof_lang.Ast.Item.{FixtureScopeRef}

mutual
  pub data HirTypeRef : Type 0 where
    type_ref : Text → HirTypeRefs → Span → HirTypeRef

  -- `Vec<HirTypeRef>`
  pub data HirTypeRefs : Type 0 where
    nil : HirTypeRefs
    cons : HirTypeRef → HirTypeRefs → HirTypeRefs

mutual
  pub data HirExpr : Type 0 where
    int : ℤ → Span → HirExpr
    string : Text → Span → HirExpr
    bool : Bool → Span → HirExpr
    local : Text → Span → HirExpr
    list : HirExprs → Span → HirExpr
    dict : HirDictEntries → Span → HirExpr
    call : Text → HirExprs → Span → HirExpr
    field : HirExpr → Text → Span → HirExpr
    method_call : HirExpr → Text → HirExprs → Span → HirExpr
    index : HirExpr → HirExpr → Span → HirExpr
    go await propagate : HirExpr → Span → HirExpr
    unary : UnaryOp → HirExpr → Span → HirExpr
    binary : HirExpr → BinaryOp → HirExpr → Span → HirExpr

  -- `Vec<HirExpr>`
  pub data HirExprs : Type 0 where
    nil : HirExprs
    cons : HirExpr → HirExprs → HirExprs

  -- `Vec<HirDictEntry>`, each entry with its key and its value
  pub data HirDictEntries : Type 0 where
    no_entries : HirDictEntries
    entry : HirExpr → HirExpr → HirDictEntries → HirDictEntries

-- `HirMatchPattern::EnumVariant`
pub record HirMatchPattern : Type 0 where
  pub enum_name : Text
  pub variant : Text
  pub bindings : List Text
  pub span : Span

pub data HirSelectArmKind : Type 0 where
  operation : HirExpr → HirSelectArmKind
  default : HirSelectArmKind

mutual
  pub data HirStmt : Type 0 where
    return : HirExpr → Span → HirStmt
    bind : Text → Bool → Option HirTypeRef → HirExpr → Span → HirStmt
    assign : Text → HirExpr → Span → HirStmt
    if_stmt : HirExpr → HirBlock → HirBlock → Span → HirStmt
    while : HirExpr → HirBlock → Span → HirStmt
    for : Text → HirExpr → HirBlock → Span → HirStmt
    break continue : Span → HirStmt
    match : HirExpr → HirMatchArms → Span → HirStmt
    select : HirSelectArms → Span → HirStmt
    expr : HirExpr → Span → HirStmt

  -- `Vec<HirStmt>`
  pub data HirBlock : Type 0 where
    nil : HirBlock
    cons : HirStmt → HirBlock → HirBlock

  -- `Vec<HirMatchArm>`, each arm with its pattern, its body and its span
  pub data HirMatchArms : Type 0 where
    no_arms : HirMatchArms
    arm : HirMatchPattern → HirBlock → Span → HirMatchArms → HirMatchArms

  -- `Vec<HirSelectArm>`, each arm with its binding, its kind, its body and its span
  pub data HirSelectArms : Type 0 where
    no_select_arms : HirSelectArms
    select_arm : Option Text → HirSelectArmKind → HirBlock → Span → HirSelectArms → HirSelectArms

pub record HirParam : Type 0 where
  pub name : Text
  pub ty : Option HirTypeRef
  pub span : Span

pub record HirFunction : Type 0 where
  pub id : ℕ
  pub kind : FunctionKind
  pub fixture_scope : Option FixtureScopeRef
  pub receiver_type : Option HirTypeRef
  pub name : Text
  pub params : List HirParam
  pub return_type : Option HirTypeRef
  pub body : HirBlock
  pub source_path : Text

pub record HirStructField : Type 0 where
  pub name : Text
  pub ty : HirTypeRef
  pub span : Span

pub record HirStruct : Type 0 where
  pub name : Text
  pub fields : List HirStructField
  pub source_path : Text

pub record HirEnumVariantField : Type 0 where
  pub name : Text
  pub ty : HirTypeRef
  pub span : Span

pub record HirEnumVariant : Type 0 where
  pub name : Text
  pub fields : List HirEnumVariantField
  pub span : Span

pub record HirEnum : Type 0 where
  pub name : Text
  pub variants : List HirEnumVariant
  pub source_path : Text

pub record HirModule : Type 0 where
  pub structs : List HirStruct
  pub enums : List HirEnum
  pub functions : List HirFunction

-- `HirExpr::span`
abbrev pub hir_span : HirExpr → Span
hir_span (HirExpr.int _ span) = span
hir_span (HirExpr.string _ span) = span
hir_span (HirExpr.bool _ span) = span
hir_span (HirExpr.local _ span) = span
hir_span (HirExpr.list _ span) = span
hir_span (HirExpr.dict _ span) = span
hir_span (HirExpr.call _ _ span) = span
hir_span (HirExpr.field _ _ span) = span
hir_span (HirExpr.method_call _ _ _ span) = span
hir_span (HirExpr.index _ _ span) = span
hir_span (HirExpr.go _ span) = span
hir_span (HirExpr.await _ span) = span
hir_span (HirExpr.propagate _ span) = span
hir_span (HirExpr.unary _ _ span) = span
hir_span (HirExpr.binary _ _ _ span) = span
