-- ===== src/Parser/TypeRef.antt =====
-- compiler/gof-compiler/src/ast.rs: the written types, on fuel; `none` means that it has run out.
pub mod Fuel
use gof_lang.Prelude.{
  ℕ, zero, suc, true, false, Option, none, some, Text, codes, ◌>>=◌, if◌then◌else◌,
}
use gof_lang.Ast.Statement.{TypeRef, TypeRefs}
use gof_lang.Parser.Discriminant.{TokenDiscriminant}
use gof_lang.Parser.State.{Parser, advance, check, expect, expect_ident}
use gof_lang.Parser.Expr.{joined}

unfoldable mutual
  pub parse_type_ref : ℕ → Text → Parser → Option (TypeRef × Parser)
  parse_type_ref zero message p = none
  parse_type_ref (suc n) message p = parse_type_tail n (expect_ident message p)

  -- After the name of the type.
  pub parse_type_tail : ℕ → Text × Parser → Option (TypeRef × Parser)
  parse_type_tail zero named = none
  parse_type_tail (suc n) (name, p) = elim (check TokenDiscriminant.l_bracket p) [
    | true ↦
        (parse_type_args n (advance p) >>= λ r.
        let (end, p₁) =
          expect TokenDiscriminant.r_bracket (codes "expected `]` after type arguments") r.1 in
        some (TypeRef.type_ref name r.0 (joined p.previous.span end), p₁))
    | false ↦ some (TypeRef.type_ref name TypeRefs.nil (joined p.previous.span p.previous.span), p)
  ]

  -- The loop over the arguments.
  pub parse_type_args : ℕ → Parser → Option (TypeRefs × Parser)
  parse_type_args zero p = none
  parse_type_args (suc n) p = do
    (arg, p₁) ← parse_type_ref n (codes "expected a type argument") p
    elim (check TokenDiscriminant.comma p₁) [
      | true ↦ (parse_type_args n (advance p₁) >>= λ r. some (TypeRefs.cons arg r.0, r.1))
      | false ↦ some (TypeRefs.cons arg TypeRefs.nil, p₁)
    ]

-- `parse_optional_type_ref` and `parse_optional_return_type_ref` differ in these.
unfoldable pub parse_type_after :
    ℕ → TokenDiscriminant → Text → Parser → Option (Option TypeRef × Parser)
parse_type_after n d message p = elim (check d p) [
  | true ↦ (parse_type_ref n message (advance p) >>= λ r. some (some r.0, r.1))
  | false ↦ some (none, p)
]

abbrev pub parse_optional_type_ref : ℕ → Parser → Option (Option TypeRef × Parser)
parse_optional_type_ref n p =
    parse_type_after n TokenDiscriminant.colon (codes "expected a type name after `:`") p

abbrev pub parse_optional_return_type_ref : ℕ → Parser → Option (Option TypeRef × Parser)
parse_optional_return_type_ref n p =
    parse_type_after n TokenDiscriminant.arrow (codes "expected a type name after `->`") p
