-- ===== src/Hir/Raise.antt =====
-- What the lowering of compiler/gof-compiler/src/hir.rs keeps: the way back to the syntax tree.
use gof_lang.Prelude.{[], map, Option, none, some}
use gof_lang.Source.{Span, span}
use gof_lang.Ast.{Expr, Exprs, DictEntries}
use gof_lang.Ast.Statement.{
  TypeRef, TypeRefs, MatchPattern, SelectArmKind, Stmt, Block, MatchArms, SelectArms,
}
use gof_lang.Ast.Item.{
  Param, Function, StructField, StructDecl, EnumVariantField, EnumVariant, EnumDecl, Module,
}
use gof_lang.Hir.{
  HirTypeRef, HirTypeRefs, HirExpr, HirExprs, HirDictEntries, HirMatchPattern, HirSelectArmKind,
  HirStmt, HirBlock, HirMatchArms, HirSelectArms, HirParam, HirFunction, HirStructField, HirStruct,
  HirEnumVariantField, HirEnumVariant, HirEnum, HirModule,
}

abbrev pub no_span : Span
no_span = span 0 0 0

unfoldable mutual
  pub raise_type_ref : HirTypeRef → TypeRef
  raise_type_ref (HirTypeRef.type_ref name args span) =
      TypeRef.type_ref name (raise_type_refs args) span

  pub raise_type_refs : HirTypeRefs → TypeRefs
  raise_type_refs HirTypeRefs.nil = TypeRefs.nil
  raise_type_refs (HirTypeRefs.cons ty tys) =
      TypeRefs.cons (raise_type_ref ty) (raise_type_refs tys)

unfoldable mutual
  pub raise_expr : HirExpr → Expr
  raise_expr (HirExpr.int value span) = Expr.int value span
  raise_expr (HirExpr.string value span) = Expr.string value span
  raise_expr (HirExpr.bool value span) = Expr.bool value span
  raise_expr (HirExpr.local name span) = Expr.ident name span
  raise_expr (HirExpr.list items span) = Expr.list (raise_exprs items) span
  raise_expr (HirExpr.dict entries span) = Expr.dict (raise_entries entries) span
  raise_expr (HirExpr.call callee args span) = Expr.call callee (raise_exprs args) span
  raise_expr (HirExpr.field target name span) = Expr.field (raise_expr target) name span
  raise_expr (HirExpr.method_call target method args span) =
      Expr.method_call (raise_expr target) method (raise_exprs args) span
  raise_expr (HirExpr.index target place span) =
      Expr.index (raise_expr target) (raise_expr place) span
  raise_expr (HirExpr.go value span) = Expr.go (raise_expr value) span
  raise_expr (HirExpr.await value span) = Expr.await (raise_expr value) span
  raise_expr (HirExpr.propagate value span) = Expr.propagate (raise_expr value) span
  raise_expr (HirExpr.unary op value span) = Expr.unary op (raise_expr value) span
  raise_expr (HirExpr.binary lhs op rhs span) =
      Expr.binary (raise_expr lhs) op (raise_expr rhs) span

  pub raise_exprs : HirExprs → Exprs
  raise_exprs HirExprs.nil = Exprs.nil
  raise_exprs (HirExprs.cons e es) = Exprs.cons (raise_expr e) (raise_exprs es)

  pub raise_entries : HirDictEntries → DictEntries
  raise_entries HirDictEntries.no_entries = DictEntries.no_entries
  raise_entries (HirDictEntries.entry key value rest) =
      DictEntries.entry (raise_expr key) (raise_expr value) (raise_entries rest)

abbrev pub raise_optional_type : Option HirTypeRef → Option TypeRef
raise_optional_type none = none
raise_optional_type (some ty) = some (raise_type_ref ty)

abbrev pub raise_match_pattern : HirMatchPattern → MatchPattern
raise_match_pattern pattern = record {
  enum_name = pattern.enum_name;
  variant = pattern.variant;
  bindings = pattern.bindings;
  span = pattern.span;
}

abbrev pub raise_select_kind : HirSelectArmKind → SelectArmKind
raise_select_kind (HirSelectArmKind.operation e) = SelectArmKind.operation (raise_expr e)
raise_select_kind HirSelectArmKind.default = SelectArmKind.default

unfoldable mutual
  pub raise_stmt : HirStmt → Stmt
  raise_stmt (HirStmt.return value span) = Stmt.return (raise_expr value) span
  raise_stmt (HirStmt.bind name mutable ty value span) =
      Stmt.bind name mutable (raise_optional_type ty) (raise_expr value) span
  raise_stmt (HirStmt.assign name value span) = Stmt.assign name (raise_expr value) span
  raise_stmt (HirStmt.if_stmt condition then_body else_body span) =
      Stmt.if_stmt (raise_expr condition) (raise_block then_body) (raise_block else_body) span
  raise_stmt (HirStmt.while condition body span) =
      Stmt.while (raise_expr condition) (raise_block body) span
  raise_stmt (HirStmt.for binding iterable body span) =
      Stmt.for binding (raise_expr iterable) (raise_block body) span
  raise_stmt (HirStmt.break span) = Stmt.break span
  raise_stmt (HirStmt.continue span) = Stmt.continue span
  raise_stmt (HirStmt.match value arms span) =
      Stmt.match (raise_expr value) (raise_match_arms arms) span
  raise_stmt (HirStmt.select arms span) = Stmt.select (raise_select_arms arms) span
  raise_stmt (HirStmt.expr value span) = Stmt.expr (raise_expr value) span

  pub raise_block : HirBlock → Block
  raise_block HirBlock.nil = Block.nil
  raise_block (HirBlock.cons s b) = Block.cons (raise_stmt s) (raise_block b)

  pub raise_match_arms : HirMatchArms → MatchArms
  raise_match_arms HirMatchArms.no_arms = MatchArms.no_arms
  raise_match_arms (HirMatchArms.arm pattern body span rest) =
      MatchArms.arm (raise_match_pattern pattern) (raise_block body) span (raise_match_arms rest)

  pub raise_select_arms : HirSelectArms → SelectArms
  raise_select_arms HirSelectArms.no_select_arms = SelectArms.no_select_arms
  raise_select_arms (HirSelectArms.select_arm binding kind body span rest) =
      SelectArms.select_arm binding (raise_select_kind kind) (raise_block body) span
        (raise_select_arms rest)

abbrev pub raise_param : HirParam → Param
raise_param decl = record { name = decl.name; ty = raise_optional_type decl.ty; span = decl.span }

abbrev pub raise_struct_field : HirStructField → StructField
raise_struct_field decl = record { name = decl.name; ty = raise_type_ref decl.ty; span = decl.span }

abbrev pub raise_struct : HirStruct → StructDecl
raise_struct decl = record {
  name = decl.name;
  fields = map raise_struct_field decl.fields;
  span = no_span;
  source_path = decl.source_path;
}

abbrev pub raise_enum_variant_field : HirEnumVariantField → EnumVariantField
raise_enum_variant_field decl = record {
  name = decl.name;
  ty = raise_type_ref decl.ty;
  span = decl.span;
}

abbrev pub raise_enum_variant : HirEnumVariant → EnumVariant
raise_enum_variant decl = record {
  name = decl.name;
  fields = map raise_enum_variant_field decl.fields;
  span = decl.span;
}

abbrev pub raise_enum : HirEnum → EnumDecl
raise_enum decl = record {
  name = decl.name;
  variants = map raise_enum_variant decl.variants;
  span = no_span;
  source_path = decl.source_path;
}

abbrev pub raise_function : HirFunction → Function
raise_function decl = record {
  kind = decl.kind;
  fixture_scope = decl.fixture_scope;
  receiver_type = raise_optional_type decl.receiver_type;
  name = decl.name;
  params = map raise_param decl.params;
  return_type = raise_optional_type decl.return_type;
  body = raise_block decl.body;
  span = no_span;
  source_path = decl.source_path;
}

unfoldable pub raise : HirModule → Module
raise m = record {
  imports = [];
  structs = map raise_struct m.structs;
  enums = map raise_enum m.enums;
  functions = map raise_function m.functions;
}
