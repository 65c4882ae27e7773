-- ===== src/Hir/Lossless.antt =====
-- `lower` of compiler/gof-compiler/src/hir.rs loses the imports and the positions of the items, and
-- nothing else.
mod Parts
use gof_lang.Prelude.{ℕ, suc, ◌≡◌, refl, ap, sym, ◌∙◌, ◌↔◌, List, [], ◌∷◌, map, Option, none, some}
use gof_lang.Ast.{Expr, Exprs, DictEntries}
use gof_lang.Ast.Statement.{TypeRef, TypeRefs, SelectArmKind, Stmt, Block, MatchArms, SelectArms}
use gof_lang.Ast.Item.{
  Param, Function, StructField, StructDecl, EnumVariantField, EnumVariant, EnumDecl, Module,
}
use gof_lang.Hir.Lower.{
  lower_type_ref, lower_type_refs, lower_expr, lower_exprs, lower_entries, lower_optional_type,
  lower_select_kind, lower_stmt, lower_block, lower_match_arms, lower_select_arms, lower_param,
  lower_struct_field, lower_struct, lower_enum_variant_field, lower_enum_variant, lower_enum,
  lower_function, lower_functions, lower,
}
use gof_lang.Hir.Raise.{
  no_span, raise_type_ref, raise_type_refs, raise_expr, raise_exprs, raise_entries,
  raise_optional_type, raise_select_kind, raise_stmt, raise_block, raise_match_arms,
  raise_select_arms, raise_param, raise_struct_field, raise_struct, raise_enum_variant_field,
  raise_enum_variant, raise_enum, raise_function, raise,
}
use gof_lang.Hir.Lossless.Parts.{
  map-back, map-cancel, raise-lower_optional_type, raise-lower_block, raise-lower_param,
  raise-lower_struct_field, raise-lower_enum_variant,
}

-- What is left of an item and of a module without what `lower` drops.
abbrev pub forget_struct : StructDecl → StructDecl
forget_struct x = record x { span = no_span }

abbrev pub forget_enum : EnumDecl → EnumDecl
forget_enum x = record x { span = no_span }

abbrev pub forget_function : Function → Function
forget_function x = record x { span = no_span }

unfoldable pub forget : Module → Module
forget m = record {
  imports = [];
  structs = map forget_struct m.structs;
  enums = map forget_enum m.enums;
  functions = map forget_function m.functions;
}

raise-lower_struct : (x : StructDecl) → raise_struct (lower_struct x) ≡ forget_struct x
raise-lower_struct x =
    ap (λ fs. record x { fields = fs; span = no_span })
      (map-back lower_struct_field raise_struct_field x.fields raise-lower_struct_field)

raise-lower_enum : (x : EnumDecl) → raise_enum (lower_enum x) ≡ forget_enum x
raise-lower_enum x =
    ap (λ vs. record x { variants = vs; span = no_span })
      (map-back lower_enum_variant raise_enum_variant x.variants raise-lower_enum_variant)

raise-lower_function :
    (id : ℕ) (x : Function) → raise_function (lower_function id x) ≡ forget_function x
unfolding lower_function
raise-lower_function id x =
    ap
      (λ t. record x {
        receiver_type = t;
        params = params;
        return_type = result;
        body = body;
        span = no_span;
      })
      (raise-lower_optional_type x.receiver_type)
    ∙ (ap (λ ps. record x { params = ps; return_type = result; body = body; span = no_span })
          (map-back lower_param raise_param x.params raise-lower_param)
        ∙ (ap (λ t. record x { return_type = t; body = body; span = no_span })
              (raise-lower_optional_type x.return_type)
            ∙ ap (λ b. record x { body = b; span = no_span }) (raise-lower_block x.body)))
  where
    params : List Param
    params = map raise_param (map lower_param x.params)

    result : Option TypeRef
    result = raise_optional_type (lower_optional_type x.return_type)

    body : Block
    body = raise_block (lower_block x.body)

raise-lower_functions :
    (id : ℕ) (fs : List Function)
    → map raise_function (lower_functions id fs) ≡ map forget_function fs
unfolding lower_functions
raise-lower_functions id [] = refl
raise-lower_functions id (f ∷ fs) =
    cc (raise-lower_function id f, raise-lower_functions (suc id) fs)

raise-lower_module : (m : Module) → raise (lower m) ≡ forget m
unfolding lower raise forget
raise-lower_module m =
    ap (λ ss. record { imports = []; structs = ss; enums = enums; functions = functions })
      (map-cancel lower_struct raise_struct forget_struct m.structs raise-lower_struct)
    ∙ (ap
          (λ es. record {
            imports = [];
            structs = map forget_struct m.structs;
            enums = es;
            functions = functions;
          })
          (map-cancel lower_enum raise_enum forget_enum m.enums raise-lower_enum)
        ∙ ap
            (λ fs. record {
              imports = [];
              structs = map forget_struct m.structs;
              enums = map forget_enum m.enums;
              functions = fs;
            })
            (raise-lower_functions 0 m.functions))
  where
    enums : List EnumDecl
    enums = map raise_enum (map lower_enum m.enums)

    functions : List Function
    functions = map raise_function (lower_functions 0 m.functions)

lower_functions-forget :
    (id : ℕ) (fs : List Function)
    → lower_functions id (map forget_function fs) ≡ lower_functions id fs
unfolding lower_functions lower_function
lower_functions-forget id [] = refl
lower_functions-forget id (f ∷ fs) =
    ap (◌∷◌ (lower_function id f)) (lower_functions-forget (suc id) fs)

map-after {ℓ κ} :
    {A : Type ℓ} {B : Type κ} (f : A → B) (g : A → A) (xs : List A)
    → ((x : A) → f (g x) ≡ f x)
    → map f (map g xs) ≡ map f xs
map-after f g [] k = refl
map-after f g (x ∷ xs) k = cc (k x, map-after f g xs k)

lower-forget : (m : Module) → lower (forget m) ≡ lower m
unfolding lower forget
lower-forget m = cc (
  map-after lower_struct forget_struct m.structs (λ x. refl),
  map-after lower_enum forget_enum m.enums (λ x. refl),
  lower_functions-forget 0 m.functions,
)

-- Two modules are lowered to the same if and only if they differ in nothing but their imports and
-- the positions of their structs, enums and functions.
pub lower-eq_iff : (m n : Module) → (lower m ≡ lower n) ↔ (forget m ≡ forget n)
lower-eq_iff m n = (
  λ e. sym (raise-lower_module m) ∙ (ap raise e ∙ raise-lower_module n),
  λ e. sym (lower-forget m) ∙ (ap lower e ∙ lower-forget n),
)
