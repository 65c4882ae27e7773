-- ===== src/Hir/Lossless/Parts.antt =====
-- Types, patterns, expressions, statements and parts of items that `lower` of
-- compiler/gof-compiler/src/hir.rs has made can be read back.
use gof_lang.Prelude.{◌≡◌, refl, ap, ◌∙◌, List, [], ◌∷◌, map, Option, none, some}
use gof_lang.Ast.{Expr, Exprs, DictEntries}
use gof_lang.Ast.Statement.{TypeRef, TypeRefs, SelectArmKind, Stmt, Block, MatchArms, SelectArms}
use gof_lang.Ast.Item.{Param, StructField, EnumVariantField, EnumVariant}
use gof_lang.Hir.Lower.{
  lower_type_ref, lower_type_refs, lower_expr, lower_exprs, lower_entries, lower_optional_type,
  lower_select_kind, lower_stmt, lower_block, lower_match_arms, lower_select_arms, lower_param,
  lower_struct_field, lower_enum_variant_field, lower_enum_variant,
}
use gof_lang.Hir.Raise.{
  raise_type_ref, raise_type_refs, raise_expr, raise_exprs, raise_entries, raise_optional_type,
  raise_select_kind, raise_stmt, raise_block, raise_match_arms, raise_select_arms, raise_param,
  raise_struct_field, raise_enum_variant_field, raise_enum_variant,
}

mutual
  unfolding lower_type_ref raise_type_ref

  raise-lower_type_ref : (x : TypeRef) → raise_type_ref (lower_type_ref x) ≡ x
  raise-lower_type_ref (TypeRef.type_ref name args s) = cc (raise-lower_type_refs args)

  raise-lower_type_refs : (x : TypeRefs) → raise_type_refs (lower_type_refs x) ≡ x
  raise-lower_type_refs TypeRefs.nil = refl
  raise-lower_type_refs (TypeRefs.cons t ts) = cc (raise-lower_type_ref t, raise-lower_type_refs ts)

mutual
  unfolding lower_expr raise_expr

  raise-lower_expr : (x : Expr) → raise_expr (lower_expr x) ≡ x
  raise-lower_expr (Expr.int v s) = refl
  raise-lower_expr (Expr.string v s) = refl
  raise-lower_expr (Expr.bool v s) = refl
  raise-lower_expr (Expr.ident v s) = refl
  raise-lower_expr (Expr.list es s) = cc (raise-lower_exprs es)
  raise-lower_expr (Expr.dict es s) = cc (raise-lower_entries es)
  raise-lower_expr (Expr.call f es s) = cc (raise-lower_exprs es)
  raise-lower_expr (Expr.field e f s) = cc (raise-lower_expr e)
  raise-lower_expr (Expr.method_call e m es s) = cc (raise-lower_expr e, raise-lower_exprs es)
  raise-lower_expr (Expr.index e i s) = cc (raise-lower_expr e, raise-lower_expr i)
  raise-lower_expr (Expr.go e s) = cc (raise-lower_expr e)
  raise-lower_expr (Expr.await e s) = cc (raise-lower_expr e)
  raise-lower_expr (Expr.propagate e s) = cc (raise-lower_expr e)
  raise-lower_expr (Expr.unary op e s) = cc (raise-lower_expr e)
  raise-lower_expr (Expr.binary l op r s) = cc (raise-lower_expr l, raise-lower_expr r)

  raise-lower_exprs : (x : Exprs) → raise_exprs (lower_exprs x) ≡ x
  raise-lower_exprs Exprs.nil = refl
  raise-lower_exprs (Exprs.cons e es) = cc (raise-lower_expr e, raise-lower_exprs es)

  raise-lower_entries : (x : DictEntries) → raise_entries (lower_entries x) ≡ x
  raise-lower_entries DictEntries.no_entries = refl
  raise-lower_entries (DictEntries.entry k v es) =
      cc (raise-lower_expr k, raise-lower_expr v, raise-lower_entries es)

pub raise-lower_optional_type :
    (o : Option TypeRef) → raise_optional_type (lower_optional_type o) ≡ o
raise-lower_optional_type none = refl
raise-lower_optional_type (some ty) = ap some (raise-lower_type_ref ty)

raise-lower_select_kind : (k : SelectArmKind) → raise_select_kind (lower_select_kind k) ≡ k
raise-lower_select_kind (SelectArmKind.operation e) =
    ap SelectArmKind.operation (raise-lower_expr e)
raise-lower_select_kind SelectArmKind.default = refl

mutual
  unfolding lower_stmt raise_stmt

  raise-lower_stmt : (x : Stmt) → raise_stmt (lower_stmt x) ≡ x
  raise-lower_stmt (Stmt.return e s) = cc (raise-lower_expr e)
  raise-lower_stmt (Stmt.bind n m t e s) = cc (raise-lower_optional_type t, raise-lower_expr e)
  raise-lower_stmt (Stmt.assign n e s) = cc (raise-lower_expr e)
  raise-lower_stmt (Stmt.if_stmt e a b s) =
      cc (raise-lower_expr e, raise-lower_block a, raise-lower_block b)
  raise-lower_stmt (Stmt.while e b s) = cc (raise-lower_expr e, raise-lower_block b)
  raise-lower_stmt (Stmt.for n e b s) = cc (raise-lower_expr e, raise-lower_block b)
  raise-lower_stmt (Stmt.break s) = refl
  raise-lower_stmt (Stmt.continue s) = refl
  raise-lower_stmt (Stmt.match e as_ s) = cc (raise-lower_expr e, raise-lower_match_arms as_)
  raise-lower_stmt (Stmt.select as_ s) = cc (raise-lower_select_arms as_)
  raise-lower_stmt (Stmt.expr e s) = cc (raise-lower_expr e)

  pub raise-lower_block : (x : Block) → raise_block (lower_block x) ≡ x
  raise-lower_block Block.nil = refl
  raise-lower_block (Block.cons s b) = cc (raise-lower_stmt s, raise-lower_block b)

  raise-lower_match_arms : (x : MatchArms) → raise_match_arms (lower_match_arms x) ≡ x
  raise-lower_match_arms MatchArms.no_arms = refl
  raise-lower_match_arms (MatchArms.arm p b s r) =
      cc (raise-lower_block b, raise-lower_match_arms r)

  raise-lower_select_arms : (x : SelectArms) → raise_select_arms (lower_select_arms x) ≡ x
  raise-lower_select_arms SelectArms.no_select_arms = refl
  raise-lower_select_arms (SelectArms.select_arm n k b s r) =
      cc (raise-lower_select_kind k, raise-lower_block b, raise-lower_select_arms r)

pub map-cancel {ℓ κ μ} :
    {A : Type ℓ} {B : Type κ} {C : Type μ} (f : A → B) (g : B → C) (h : A → C) (xs : List A)
    → ((x : A) → g (f x) ≡ h x)
    → map g (map f xs) ≡ map h xs
map-cancel f g h [] k = refl
map-cancel f g h (x ∷ xs) k = cc (k x, map-cancel f g h xs k)

map-same {ℓ} : {A : Type ℓ} (xs : List A) → map (λ x. x) xs ≡ xs
map-same [] = refl
map-same (x ∷ xs) = ap (◌∷◌ x) (map-same xs)

pub map-back {ℓ κ} :
    {A : Type ℓ} {B : Type κ} (f : A → B) (g : B → A) (xs : List A)
    → ((x : A) → g (f x) ≡ x)
    → map g (map f xs) ≡ xs
map-back f g xs k = map-cancel f g (λ x. x) xs k ∙ map-same xs

pub raise-lower_param : (x : Param) → raise_param (lower_param x) ≡ x
raise-lower_param x = ap (λ t. record x { ty = t }) (raise-lower_optional_type x.ty)

pub raise-lower_struct_field : (x : StructField) → raise_struct_field (lower_struct_field x) ≡ x
raise-lower_struct_field x = ap (λ t. record x { ty = t }) (raise-lower_type_ref x.ty)

raise-lower_enum_variant_field :
    (x : EnumVariantField) → raise_enum_variant_field (lower_enum_variant_field x) ≡ x
raise-lower_enum_variant_field x = ap (λ t. record x { ty = t }) (raise-lower_type_ref x.ty)

pub raise-lower_enum_variant : (x : EnumVariant) → raise_enum_variant (lower_enum_variant x) ≡ x
raise-lower_enum_variant x =
    ap (λ fs. record x { fields = fs })
      (map-back lower_enum_variant_field raise_enum_variant_field x.fields
        raise-lower_enum_variant_field)
