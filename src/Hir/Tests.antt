-- ===== src/Hir/Tests.antt =====
-- The lowering of a small module.
use gof_lang.Prelude.{◌≡◌, refl, ◌↔◌, pos, [], ◌∷◌, map, none, some, codes}
use gof_lang.Source.{span}
use gof_lang.Ast.{BinaryOp, Expr, FunctionKind}
use gof_lang.Ast.Statement.{TypeRef, TypeRefs, Stmt, Block}
use gof_lang.Ast.Item.{Function, Module}
use gof_lang.Hir.{HirExpr, HirStmt, HirBlock, HirFunction}
use gof_lang.Hir.Lower.{
  lower_type_ref, lower_expr, lower_stmt, lower_function, lower_functions, lower,
}
use gof_lang.Hir.Lossless.{forget, lower-eq_iff}

abbrev body : Block
body =
    Block.cons
      (Stmt.return
        (Expr.binary (Expr.ident (codes "x") (span 2 12 13)) BinaryOp.add
          (Expr.int (pos 1) (span 2 16 17)) (span 2 12 17))
        (span 2 5 11))
      Block.nil

abbrev successor : Function
successor = record {
  kind = FunctionKind.function;
  fixture_scope = none;
  receiver_type = none;
  name = codes "successor";
  params = [];
  return_type = some (TypeRef.type_ref (codes "int") TypeRefs.nil (span 1 20 23));
  body = body;
  span = span 1 1 3;
  source_path = codes "a.gof";
}

abbrev sample : Module
sample = record { imports = []; structs = []; enums = []; functions = successor ∷ successor ∷ [] }

abbrev importing : Module
importing = record sample {
  imports = (record { module_name = codes "io"; span = span 1 1 7 }) ∷ [];
}

lowers_body : map (λ (f : HirFunction). f.body) (lower sample).functions ≡ (
    let lowered =
      HirBlock.cons
        (HirStmt.return
          (HirExpr.binary
            (HirExpr.local (codes "x") (span 2 12 13))
            BinaryOp.add
            (HirExpr.int (pos 1) (span 2 16 17))
            (span 2 12 17))
          (span 2 5 11))
        HirBlock.nil in
    lowered ∷ lowered ∷ [])
unfolding lower lower_functions lower_function lower_stmt lower_expr lower_type_ref
lowers_body = refl

lower-eq_iff_example : (lower sample ≡ lower importing) ↔ (forget sample ≡ forget importing)
lower-eq_iff_example = lower-eq_iff sample importing
