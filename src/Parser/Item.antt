-- ===== src/Parser/Item.antt =====
-- compiler/gof-compiler/src/ast.rs: the parsing of imports, structs, enums and functions, on fuel;
-- `none` means that it has run out.
pub mod Fuel
use gof_lang.Prelude.{
  ℕ, zero, suc, Bool, true, false, List, [], ◌∷◌, Option, none, some, Text, codes, ◌>>=◌,
}
use gof_lang.Source.{Span, span}
use gof_lang.Ast.{FunctionKind}
use gof_lang.Ast.Statement.{TypeRef, TypeRefs, Block}
use gof_lang.Ast.Item.{
  Import, FixtureScopeRef, Param, Function, StructField, StructDecl, EnumVariantField, EnumVariant,
  EnumDecl,
}
use gof_lang.Parser.Discriminant.{TokenDiscriminant}
use gof_lang.Parser.State.{Parser, advance, check, expect, expect_ident, expect_member_name}
use gof_lang.Parser.Expr.{joined}
use gof_lang.Parser.TypeRef.{
  parse_type_ref, parse_optional_type_ref, parse_optional_return_type_ref,
}
use gof_lang.Parser.Statement.Arms.{skip}
use gof_lang.Parser.Statement.{open_body, body_ends, parse_block}

unfoldable pub parse_import : Parser → Import × Parser
parse_import p =
    let (start, p₁) = expect TokenDiscriminant.import_kw (codes "expected `import`") p in
    let (name, p₂) = expect_ident (codes "expected a module name after `import`") p₁ in
    (
      record { module_name = name; span = start },
      skip TokenDiscriminant.newline (codes "expected a newline after import statement") p₂,
    )

-- The loops of `parse_struct_fields` and of `parse_enum_variants`, over what parses an element.
module _ {A : Type 0} (parse_one : ℕ → Parser → Option (A × Parser)) where
  unfoldable pub parse_lines : ℕ → Parser → Option (List A × Parser)
  parse_lines zero p = none
  parse_lines (suc n) p = elim (body_ends p) [
    | true ↦ some ([], p)
    | false ↦ (parse_one n p >>= λ a. (parse_lines n a.1 >>= λ r. some (a.0 ∷ r.0, r.1)))
  ]

  -- The loops of `parse_params` and over the payload of a variant.
  unfoldable pub parse_commas : ℕ → Parser → Option (List A × Parser)
  parse_commas zero p = none
  parse_commas (suc n) p = do
    (a, p₁) ← parse_one n p
    elim (check TokenDiscriminant.comma p₁) [
      | true ↦ (parse_commas n (advance p₁) >>= λ r. some (a ∷ r.0, r.1))
      | false ↦ some (a ∷ [], p₁)
    ]

unfoldable pub parse_param : ℕ → Parser → Option (Param × Parser)
parse_param n p = do
  let (name, p₁) = expect_ident (codes "expected parameter name") p
  (ty, p₂) ← parse_optional_type_ref n p₁
  some (record { name = name; ty = ty; span = p₁.previous.span }, p₂)

unfoldable pub parse_params : ℕ → Parser → Option (List Param × Parser)
parse_params n p = elim (check TokenDiscriminant.r_paren p) [
  | true ↦ some ([], p)
  | false ↦ parse_commas parse_param n p
]

unfoldable pub parse_struct_field : ℕ → Parser → Option (StructField × Parser)
parse_struct_field n p = do
  let (name, p₁) = expect_ident (codes "expected a field name") p
  (ty, p₂) ←
      parse_type_ref n (codes "expected a type name after `:`")
        (skip TokenDiscriminant.colon (codes "expected `:` after field name") p₁)
  some (
    record { name = name; ty = ty; span = p₁.previous.span },
    skip TokenDiscriminant.newline (codes "expected a newline after struct field") p₂,
  )

-- One field of the payload of an enum's variant.
unfoldable pub parse_payload_field : ℕ → Parser → Option (EnumVariantField × Parser)
parse_payload_field n p = do
  let (name, p₁) = expect_ident (codes "expected an enum payload field name") p
  (ty, p₂) ←
      parse_type_ref n (codes "expected a type name after `:`")
        (skip TokenDiscriminant.colon (codes "expected `:` after the enum payload field name") p₁)
  some (record { name = name; ty = ty; span = p₁.previous.span }, p₂)

abbrev pub variant_of : Text → List EnumVariantField → Span → EnumVariant
variant_of name fields span = record { name = name; fields = fields; span = span }

-- After the name of the variant.
unfoldable pub parse_variant_tail : ℕ → Text × Parser → Option (EnumVariant × Parser)
parse_variant_tail n (name, p) = elim (check TokenDiscriminant.l_paren p) [
  | true ↦
      (parse_commas parse_payload_field n (advance p) >>= λ r.
      let (end, p₁) =
        expect TokenDiscriminant.r_paren (codes "expected `)` after enum payload fields") r.1 in
      some (variant_of name r.0 (joined p.previous.span end), p₁))
  | false ↦ some (variant_of name [] (joined p.previous.span p.previous.span), p)
]

unfoldable pub parse_enum_variant : ℕ → Parser → Option (EnumVariant × Parser)
parse_enum_variant n p = do
  (variant, p₁) ← parse_variant_tail n (expect_ident (codes "expected an enum variant name") p)
  some (variant, skip TokenDiscriminant.newline (codes "expected a newline after enum variant") p₁)

unfoldable pub parse_struct_fields : ℕ → Text → Parser → Option (List StructField × Parser)
parse_struct_fields n message p = do
  (fields, p₁) ←
      parse_lines parse_struct_field n
        (open_body (codes "expected a newline before a struct body") message p)
  some (fields, skip TokenDiscriminant.dedent (codes "expected a struct body dedent") p₁)

unfoldable pub parse_enum_variants : ℕ → Text → Parser → Option (List EnumVariant × Parser)
parse_enum_variants n message p = do
  (variants, p₁) ←
      parse_lines parse_enum_variant n
        (open_body (codes "expected a newline before an enum body") message p)
  some (variants, skip TokenDiscriminant.dedent (codes "expected an enum body dedent") p₁)

unfoldable pub parse_struct : ℕ → Parser → Option (StructDecl × Parser)
parse_struct n p = do
  let (start, p₁) =
      expect TokenDiscriminant.struct_kw (codes "expected `struct` to start a struct") p
  let (name, p₂) = expect_ident (codes "expected a struct name after `struct`") p₁
  (fields, p₃) ←
      parse_struct_fields n (codes "expected an indented block after struct declaration")
        (skip TokenDiscriminant.colon (codes "expected `:` after struct declaration") p₂)
  some (record { name = name; fields = fields; span = joined start start; source_path = [] }, p₃)

unfoldable pub parse_enum : ℕ → Parser → Option (EnumDecl × Parser)
parse_enum n p = do
  let (start, p₁) = expect TokenDiscriminant.enum_kw (codes "expected `enum` to start an enum") p
  let (name, p₂) = expect_ident (codes "expected an enum name after `enum`") p₁
  (variants, p₃) ←
      parse_enum_variants n (codes "expected an indented block after enum declaration")
        (skip TokenDiscriminant.colon (codes "expected `:` after enum declaration") p₂)
  some
      (record { name = name; variants = variants; span = joined start start; source_path = [] }, p₃)

unfoldable pub parse_fixture_scope_name : Parser → FixtureScopeRef × Parser
parse_fixture_scope_name p = elim (check TokenDiscriminant.test_kw p) [
  | true ↦ (record { name = codes "test"; span = (advance p).previous.span }, advance p)
  | false ↦ elim (check TokenDiscriminant.module_kw p) [
    | true ↦ (record { name = codes "module"; span = (advance p).previous.span }, advance p)
    | false ↦
        let (scope, p₁) =
          expect_ident (codes "expected a fixture scope like `test` or `module`") p in
        (record { name = scope; span = p₁.previous.span }, p₁)
  ]
]

-- What stands before the name of a function: its kind, its scope and its first position.
pub record Opening : Type 0 where
  pub kind : FunctionKind
  pub fixture_scope : Option FixtureScopeRef
  pub start : Span

unfoldable pub parse_opening : Parser → Opening × Parser
parse_opening p = elim (check TokenDiscriminant.test_kw p) [
  | true ↦ (
    record { kind = FunctionKind.test; fixture_scope = none; start = (advance p).previous.span },
    skip TokenDiscriminant.fn_kw (codes "expected `fn` after `test`") (advance p),
  )
  | false ↦ elim (check TokenDiscriminant.fixture_kw p) [
    | true ↦
        let (scope, p₁) = parse_fixture_scope_name (
          skip TokenDiscriminant.l_paren
            (codes "expected `(` after `fixture` to declare a lifetime scope") (advance p)) in
        (
          record {
            kind = FunctionKind.fixture;
            fixture_scope = some scope;
            start = (advance p).previous.span;
          },
          skip TokenDiscriminant.fn_kw (codes "expected `fn` after `fixture(scope)`")
              (skip TokenDiscriminant.r_paren (codes "expected `)` after the fixture scope") p₁),
        )
    | false ↦
        let (start, p₁) =
          expect TokenDiscriminant.fn_kw (codes "expected `fn` to start a function") p in
        (record { kind = FunctionKind.function; fixture_scope = none; start = start }, p₁)
  ]
]

-- The type that a method is for, and the name.
unfoldable pub parse_receiver : Text × Parser → (Option TypeRef × Text) × Parser
parse_receiver (head, p) = elim (check TokenDiscriminant.dot p) [
  | true ↦
      let (name, p₁) =
        expect_member_name (codes "expected a method name after `TypeName.`") (advance p) in
      ((some (TypeRef.type_ref head TypeRefs.nil p.previous.span), name), p₁)
  | false ↦ ((none, head), p)
]

unfoldable pub parse_function : ℕ → Parser → Option (Function × Parser)
parse_function n p = do
  let (opening, p₁) = parse_opening p
  let (named, p₂) = parse_receiver (expect_ident (codes "expected a function name after `fn`") p₁)
  (params, p₃) ←
      parse_params n (skip TokenDiscriminant.l_paren (codes "expected `(` after function name") p₂)
  (return_type, p₄) ←
      parse_optional_return_type_ref n
        (skip TokenDiscriminant.r_paren (codes "expected `)` after function parameters") p₃)
  (body, p₅) ←
      parse_block n (codes "expected an indented block after function signature")
        (skip TokenDiscriminant.colon (codes "expected `:` after function signature") p₄)
  some (
    record {
      kind = opening.kind;
      fixture_scope = opening.fixture_scope;
      receiver_type = named.0;
      name = named.1;
      params = params;
      return_type = return_type;
      body = body;
      span = joined opening.start opening.start;
      source_path = [];
    },
    p₅,
  )
