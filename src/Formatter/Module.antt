-- ===== src/Formatter/Module.antt =====
-- compiler/gof-compiler/src/formatter.rs: the printing of items and of modules.
use gof_lang.Prelude.{List, [], ◌∷◌, ◌++◌, map, Option, none, some, Text, codes}
use gof_lang.Ast.{FunctionKind}
use gof_lang.Ast.Statement.{TypeRef}
use gof_lang.Ast.Item.{
  Import, FixtureScopeRef, Param, Function, StructField, StructDecl, EnumVariantField, EnumVariant,
  EnumDecl, Module,
}
use gof_lang.Formatter.Statement.{
  join, indentation, format_type_ref, format_annotation, format_block,
}

abbrev pub format_import : Import → Text
format_import i = codes "import " ++ i.module_name

abbrev pub format_struct_field : StructField → Text
format_struct_field field =
    indentation 1 ++ (field.name ++ (codes ": " ++ format_type_ref field.ty))

abbrev pub format_struct : StructDecl → Text
format_struct decl =
    codes "struct "
    ++ (decl.name ++ (codes ":\n" ++ join (codes "\n") (map format_struct_field decl.fields)))

abbrev pub format_enum_variant_field : EnumVariantField → Text
format_enum_variant_field field = field.name ++ (codes ": " ++ format_type_ref field.ty)

abbrev pub format_payload : List EnumVariantField → Text
format_payload [] = []
format_payload (f ∷ fs) =
    codes "(" ++ (join (codes ", ") (map format_enum_variant_field (f ∷ fs)) ++ codes ")")

abbrev pub format_enum_variant : EnumVariant → Text
format_enum_variant variant = indentation 1 ++ (variant.name ++ format_payload variant.fields)

abbrev pub format_enum : EnumDecl → Text
format_enum decl =
    codes "enum "
    ++ (decl.name ++ (codes ":\n" ++ join (codes "\n") (map format_enum_variant decl.variants)))

abbrev pub format_param : Param → Text
format_param param = param.name ++ format_annotation (codes ": ") param.ty

abbrev pub scope_or_test : Option FixtureScopeRef → Text
scope_or_test none = codes "test"
scope_or_test (some scope) = scope.name

abbrev pub function_keyword : FunctionKind → Option FixtureScopeRef → Text
function_keyword FunctionKind.function scope = codes "fn"
function_keyword FunctionKind.test scope = codes "test fn"
function_keyword FunctionKind.fixture scope =
    codes "fixture(" ++ (scope_or_test scope ++ codes ") fn")

abbrev pub format_head : Option TypeRef → Text → Text
format_head none name = name
format_head (some receiver) name = format_type_ref receiver ++ (codes "." ++ name)

module _ (debug : Text → Text) where
  -- `format_function_with_keyword`, without the body.
  abbrev pub format_signature : Function → Text
  format_signature f =
      function_keyword f.kind f.fixture_scope
      ++ (codes " "
          ++ (format_head f.receiver_type f.name
              ++ (codes "("
                  ++ (join (codes ", ") (map format_param f.params)
                      ++ (codes ")"
                          ++ (format_annotation (codes " -> ") f.return_type ++ codes ":"))))))

  abbrev pub format_function : Function → Text
  format_function f =
      format_signature f ++ (codes "\n" ++ (format_block debug f.body 1 ++ codes "\n"))

  -- A section, if there is anything in it.
  abbrev pub section {ℓ} : {A : Type ℓ} → (A → Text) → List A → List Text
  section print [] = []
  section print (x ∷ xs) = join (codes "\n") (map print (x ∷ xs)) ∷ []

  unfoldable pub format_module : Module → Text
  format_module m = join (codes "\n\n") (
      section format_import m.imports
      ++ (section format_struct m.structs
          ++ (section format_enum m.enums ++ section format_function m.functions)))
