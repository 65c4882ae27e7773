-- ===== src/Hir/Lower.antt =====
-- compiler/gof-compiler/src/hir.rs: `lower`, from the syntax tree.
use gof_lang.Prelude.{ℕ, suc, List, [], ◌∷◌, map, Option, none, some}
use gof_lang.Source.{span}
use gof_lang.Ast.{Expr, Exprs, DictEntries}
use gof_lang.Ast.Statement.{
  TypeRef, TypeRefs, MatchPattern, SelectArmKind, Stmt, Block, MatchArms, SelectArms,
}
use gof_lang.Ast.Item.{
  Param, Function, StructField, StructDecl, EnumVariantField, EnumVariant, EnumDecl, Module,
}
use gof_lang.Hir.{
  HirTypeRef, HirTypeRefs, HirExpr, HirExprs, HirDictEntries, HirMatchPattern, HirSelectArmKind,
  HirStmt, HirBlock, HirMatchArms, HirSelectArms, HirParam, HirFunction, HirStructField, HirStruct,
  HirEnumVariantField, HirEnumVariant, HirEnum, HirModule,
}

unfoldable mutual
  pub lower_type_ref : TypeRef → HirTypeRef
  lower_type_ref (TypeRef.type_ref name args span) =
      HirTypeRef.type_ref name (lower_type_refs args) span

  pub lower_type_refs : TypeRefs → HirTypeRefs
  lower_type_refs TypeRefs.nil = HirTypeRefs.nil
  lower_type_refs (TypeRefs.cons ty tys) =
      HirTypeRefs.cons (lower_type_ref ty) (lower_type_refs tys)

unfoldable mutual
  pub lower_expr : Expr → HirExpr
  lower_expr (Expr.int value span) = HirExpr.int value span
  lower_expr (Expr.string value span) = HirExpr.string value span
  lower_expr (Expr.bool value span) = HirExpr.bool value span
  lower_expr (Expr.ident name span) = HirExpr.local name span
  lower_expr (Expr.list items span) = HirExpr.list (lower_exprs items) span
  lower_expr (Expr.dict entries span) = HirExpr.dict (lower_entries entries) span
  lower_expr (Expr.call callee args span) = HirExpr.call callee (lower_exprs args) span
  lower_expr (Expr.field target name span) = HirExpr.field (lower_expr target) name span
  lower_expr (Expr.method_call target method args span) =
      HirExpr.method_call (lower_expr target) method (lower_exprs args) span
  lower_expr (Expr.index target place span) =
      HirExpr.index (lower_expr target) (lower_expr place) span
  lower_expr (Expr.go value span) = HirExpr.go (lower_expr value) span
  lower_expr (Expr.await value span) = HirExpr.await (lower_expr value) span
  lower_expr (Expr.propagate value span) = HirExpr.propagate (lower_expr value) span
  lower_expr (Expr.unary op value span) = HirExpr.unary op (lower_expr value) span
  lower_expr (Expr.binary lhs op rhs span) =
      HirExpr.binary (lower_expr lhs) op (lower_expr rhs) span

  pub lower_exprs : Exprs → HirExprs
  lower_exprs Exprs.nil = HirExprs.nil
  lower_exprs (Exprs.cons e es) = HirExprs.cons (lower_expr e) (lower_exprs es)

  pub lower_entries : DictEntries → HirDictEntries
  lower_entries DictEntries.no_entries = HirDictEntries.no_entries
  lower_entries (DictEntries.entry key value rest) =
      HirDictEntries.entry (lower_expr key) (lower_expr value) (lower_entries rest)

abbrev pub lower_optional_type : Option TypeRef → Option HirTypeRef
lower_optional_type none = none
lower_optional_type (some ty) = some (lower_type_ref ty)

abbrev pub lower_match_pattern : MatchPattern → HirMatchPattern
lower_match_pattern pattern = record {
  enum_name = pattern.enum_name;
  variant = pattern.variant;
  bindings = pattern.bindings;
  span = pattern.span;
}

abbrev pub lower_select_kind : SelectArmKind → HirSelectArmKind
lower_select_kind (SelectArmKind.operation e) = HirSelectArmKind.operation (lower_expr e)
lower_select_kind SelectArmKind.default = HirSelectArmKind.default

unfoldable mutual
  pub lower_stmt : Stmt → HirStmt
  lower_stmt (Stmt.return value span) = HirStmt.return (lower_expr value) span
  lower_stmt (Stmt.bind name mutable ty value span) =
      HirStmt.bind name mutable (lower_optional_type ty) (lower_expr value) span
  lower_stmt (Stmt.assign name value span) = HirStmt.assign name (lower_expr value) span
  lower_stmt (Stmt.if_stmt condition then_body else_body span) =
      HirStmt.if_stmt (lower_expr condition) (lower_block then_body) (lower_block else_body) span
  lower_stmt (Stmt.while condition body span) =
      HirStmt.while (lower_expr condition) (lower_block body) span
  lower_stmt (Stmt.for binding iterable body span) =
      HirStmt.for binding (lower_expr iterable) (lower_block body) span
  lower_stmt (Stmt.break span) = HirStmt.break span
  lower_stmt (Stmt.continue span) = HirStmt.continue span
  lower_stmt (Stmt.match value arms span) =
      HirStmt.match (lower_expr value) (lower_match_arms arms) span
  lower_stmt (Stmt.select arms span) = HirStmt.select (lower_select_arms arms) span
  lower_stmt (Stmt.expr value span) = HirStmt.expr (lower_expr value) span

  pub lower_block : Block → HirBlock
  lower_block Block.nil = HirBlock.nil
  lower_block (Block.cons s b) = HirBlock.cons (lower_stmt s) (lower_block b)

  pub lower_match_arms : MatchArms → HirMatchArms
  lower_match_arms MatchArms.no_arms = HirMatchArms.no_arms
  lower_match_arms (MatchArms.arm pattern body span rest) =
      HirMatchArms.arm (lower_match_pattern pattern) (lower_block body) span (lower_match_arms rest)

  pub lower_select_arms : SelectArms → HirSelectArms
  lower_select_arms SelectArms.no_select_arms = HirSelectArms.no_select_arms
  lower_select_arms (SelectArms.select_arm binding kind body span rest) =
      HirSelectArms.select_arm binding (lower_select_kind kind) (lower_block body) span
        (lower_select_arms rest)

abbrev pub lower_param : Param → HirParam
lower_param decl = record { name = decl.name; ty = lower_optional_type decl.ty; span = decl.span }

abbrev pub lower_struct_field : StructField → HirStructField
lower_struct_field decl = record { name = decl.name; ty = lower_type_ref decl.ty; span = decl.span }

abbrev pub lower_struct : StructDecl → HirStruct
lower_struct decl = record {
  name = decl.name;
  fields = map lower_struct_field decl.fields;
  source_path = decl.source_path;
}

abbrev pub lower_enum_variant_field : EnumVariantField → HirEnumVariantField
lower_enum_variant_field decl = record {
  name = decl.name;
  ty = lower_type_ref decl.ty;
  span = decl.span;
}

abbrev pub lower_enum_variant : EnumVariant → HirEnumVariant
lower_enum_variant decl = record {
  name = decl.name;
  fields = map lower_enum_variant_field decl.fields;
  span = decl.span;
}

abbrev pub lower_enum : EnumDecl → HirEnum
lower_enum decl = record {
  name = decl.name;
  variants = map lower_enum_variant decl.variants;
  source_path = decl.source_path;
}

-- The functions are numbered, by `enumerate`.
unfoldable pub lower_function : ℕ → Function → HirFunction
lower_function id decl = record {
  id = id;
  kind = decl.kind;
  fixture_scope = decl.fixture_scope;
  receiver_type = lower_optional_type decl.receiver_type;
  name = decl.name;
  params = map lower_param decl.params;
  return_type = lower_optional_type decl.return_type;
  body = lower_block decl.body;
  source_path = decl.source_path;
}

unfoldable pub lower_functions : ℕ → List Function → List HirFunction
lower_functions id [] = []
lower_functions id (f ∷ fs) = lower_function id f ∷ lower_functions (suc id) fs

unfoldable pub lower : Module → HirModule
lower m = record {
  structs = map lower_struct m.structs;
  enums = map lower_enum m.enums;
  functions = lower_functions 0 m.functions;
}
