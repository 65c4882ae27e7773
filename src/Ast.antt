-- ===== src/Ast.antt =====
-- compiler/gof-compiler/src/ast.rs: the syntax tree. A list inside a tree of its own type is a type
-- of the `mutual` block.
pub mod Statement
pub mod Item
use gof_lang.Prelude.{ℤ, Bool, Text}
use gof_lang.Source.{Span}

pub data BinaryOp : Type 0 where
  add sub mul div mod_op and_op or_op eq ne lt le gt ge : BinaryOp

pub data UnaryOp : Type 0 where
  not_op neg : UnaryOp

pub data FunctionKind : Type 0 where
  function test fixture : FunctionKind

pub data FixtureScope : Type 0 where
  test_scope module_scope : FixtureScope

mutual
  pub data Expr : Type 0 where
    int : ℤ → Span → Expr
    string : Text → Span → Expr
    bool : Bool → Span → Expr
    ident : Text → Span → Expr
    list : Exprs → Span → Expr
    dict : DictEntries → Span → Expr
    call : Text → Exprs → Span → Expr
    field : Expr → Text → Span → Expr
    method_call : Expr → Text → Exprs → Span → Expr
    index : Expr → Expr → Span → Expr
    go await propagate : Expr → Span → Expr
    unary : UnaryOp → Expr → Span → Expr
    binary : Expr → BinaryOp → Expr → Span → Expr

  -- `Vec<Expr>`
  pub data Exprs : Type 0 where
    nil : Exprs
    cons : Expr → Exprs → Exprs

  -- `Vec<DictEntry>`, each entry with its key and its value
  pub data DictEntries : Type 0 where
    no_entries : DictEntries
    entry : Expr → Expr → DictEntries → DictEntries

-- `Expr::span`
abbrev pub expr_span : Expr → Span
expr_span (Expr.int _ span) = span
expr_span (Expr.string _ span) = span
expr_span (Expr.bool _ span) = span
expr_span (Expr.ident _ span) = span
expr_span (Expr.list _ span) = span
expr_span (Expr.dict _ span) = span
expr_span (Expr.call _ _ span) = span
expr_span (Expr.field _ _ span) = span
expr_span (Expr.method_call _ _ _ span) = span
expr_span (Expr.index _ _ span) = span
expr_span (Expr.go _ span) = span
expr_span (Expr.await _ span) = span
expr_span (Expr.propagate _ span) = span
expr_span (Expr.unary _ _ span) = span
expr_span (Expr.binary _ _ _ span) = span
