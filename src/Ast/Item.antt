-- ===== src/Ast/Item.antt =====
-- compiler/gof-compiler/src/ast.rs: the items of a module.
use gof_lang.Prelude.{List, Option, Text}
use gof_lang.Source.{Span}
use gof_lang.Ast.{FunctionKind}
use gof_lang.Ast.Statement.{TypeRef, Block}

pub record Import : Type 0 where
  pub module_name : Text
  pub span : Span

pub record FixtureScopeRef : Type 0 where
  pub name : Text
  pub span : Span

pub record Param : Type 0 where
  pub name : Text
  pub ty : Option TypeRef
  pub span : Span

pub record Function : Type 0 where
  pub kind : FunctionKind
  pub fixture_scope : Option FixtureScopeRef
  pub receiver_type : Option TypeRef
  pub name : Text
  pub params : List Param
  pub return_type : Option TypeRef
  pub body : Block
  pub span : Span
  pub source_path : Text

pub record StructField : Type 0 where
  pub name : Text
  pub ty : TypeRef
  pub span : Span

pub record StructDecl : Type 0 where
  pub name : Text
  pub fields : List StructField
  pub span : Span
  pub source_path : Text

pub record EnumVariantField : Type 0 where
  pub name : Text
  pub ty : TypeRef
  pub span : Span

pub record EnumVariant : Type 0 where
  pub name : Text
  pub fields : List EnumVariantField
  pub span : Span

pub record EnumDecl : Type 0 where
  pub name : Text
  pub variants : List EnumVariant
  pub span : Span
  pub source_path : Text

pub record Module : Type 0 where
  pub imports : List Import
  pub structs : List StructDecl
  pub enums : List EnumDecl
  pub functions : List Function
