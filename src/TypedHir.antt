-- ===== src/TypedHir.antt =====
-- compiler/gof-compiler/src/typed_hir.rs: the types of the language and the typed program, which
-- the later passes read. A list inside a tree of its own type is a type of the `mutual` block.
use gof_lang.Prelude.{ℕ, ℤ, Bool, List, Option, Text}
use gof_lang.Source.{Span}
use gof_lang.Ast.{BinaryOp, UnaryOp, FunctionKind, FixtureScope}

-- `Type`
pub data GofType : Type 0 where
  int string bool json cancel_token unknown unit : GofType
  opaque struct enum : Text → GofType
  list dict channel task : GofType → GofType
  result : GofType → GofType → GofType

mutual
  pub data TypedExpr : Type 0 where
    typed : TypedExprKind → GofType → Span → TypedExpr

  pub data TypedExprKind : Type 0 where
    int : ℤ → TypedExprKind
    string : Text → TypedExprKind
    bool : Bool → TypedExprKind
    local : Text → TypedExprKind
    list : TypedExprs → TypedExprKind
    dict : TypedDictEntries → TypedExprKind
    call : Text → TypedExprs → TypedExprKind
    method_call : TypedExpr → Text → Text → TypedExprs → TypedExprKind
    struct_init : Text → TypedExprs → TypedExprKind
    enum_variant : Text → Text → TypedExprs → TypedExprKind
    field : TypedExpr → Text → TypedExprKind
    index : TypedExpr → TypedExpr → TypedExprKind
    spawn : Text → TypedExprs → TypedExprKind
    await propagate : TypedExpr → TypedExprKind
    unary : UnaryOp → TypedExpr → TypedExprKind
    binary : TypedExpr → BinaryOp → TypedExpr → TypedExprKind

  -- `Vec<TypedExpr>`
  pub data TypedExprs : Type 0 where
    nil : TypedExprs
    cons : TypedExpr → TypedExprs → TypedExprs

  -- `Vec<TypedDictEntry>`, each entry with its key and its value
  pub data TypedDictEntries : Type 0 where
    no_entries : TypedDictEntries
    entry : TypedExpr → TypedExpr → TypedDictEntries → TypedDictEntries

pub record TypedMatchBinding : Type 0 where
  pub name : Text
  pub ty : GofType

pub record TypedMatchPattern : Type 0 where
  pub enum_name : Text
  pub variant : Text
  pub bindings : List TypedMatchBinding
  pub span : Span

pub data TypedSelectArmKind : Type 0 where
  recv send : TypedExpr → TypedSelectArmKind
  default : TypedSelectArmKind

mutual
  pub data TypedStmt : Type 0 where
    return : TypedExpr → TypedStmt
    bind : Text → Bool → TypedExpr → TypedStmt
    assign : Text → TypedExpr → TypedStmt
    break continue : TypedStmt
    if_stmt : TypedExpr → TypedBlock → TypedBlock → TypedStmt
    while : TypedExpr → TypedBlock → TypedStmt
    for : Text → TypedExpr → TypedBlock → TypedStmt
    match : TypedExpr → TypedMatchArms → TypedStmt
    select : TypedSelectArms → TypedStmt
    expr : TypedExpr → TypedStmt

  -- `Vec<TypedStmt>`
  pub data TypedBlock : Type 0 where
    nil : TypedBlock
    cons : TypedStmt → TypedBlock → TypedBlock

  -- `Vec<TypedMatchArm>`, each arm with its pattern and its body
  pub data TypedMatchArms : Type 0 where
    no_arms : TypedMatchArms
    arm : TypedMatchPattern → TypedBlock → TypedMatchArms → TypedMatchArms

  -- `Vec<TypedSelectArm>`, each arm with its binding, its kind and its body
  pub data TypedSelectArms : Type 0 where
    no_select_arms : TypedSelectArms
    select_arm : Option Text → TypedSelectArmKind → TypedBlock → TypedSelectArms → TypedSelectArms

pub record TypedParam : Type 0 where
  pub name : Text
  pub ty : GofType

pub record TypedFunction : Type 0 where
  pub id : ℕ
  pub kind : FunctionKind
  pub fixture_scope : Option FixtureScope
  pub symbol_name : Text
  pub receiver_type : Option GofType
  pub name : Text
  pub params : List TypedParam
  pub return_type : GofType
  pub body : TypedBlock

pub record TypedStructField : Type 0 where
  pub name : Text
  pub ty : GofType

pub record TypedStruct : Type 0 where
  pub name : Text
  pub fields : List TypedStructField

pub record TypedEnumVariant : Type 0 where
  pub name : Text
  pub fields : List TypedStructField

pub record TypedEnum : Type 0 where
  pub name : Text
  pub variants : List TypedEnumVariant

pub record TypedModule : Type 0 where
  pub structs : List TypedStruct
  pub enums : List TypedEnum
  pub functions : List TypedFunction
