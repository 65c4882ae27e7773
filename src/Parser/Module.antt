-- ===== src/Parser/Module.antt =====
-- compiler/gof-compiler/src/ast.rs: `parse` and `parse_module`, on fuel; `none` means that it has
-- run out, or that there is no `eof` and `peek` would panic.
pub mod Fuel
mod Tests
use gof_lang.Prelude.{
  ℕ, zero, suc, Bool, true, false, List, [], ◌∷◌, ◌++◌, Option, none, some, is_empty, ◌>>=◌,
  if◌then◌else◌,
}
use gof_lang.Diagnostics.{Diagnostics}
use gof_lang.Token.{Token}
use gof_lang.Ast.Item.{Import, Function, StructDecl, EnumDecl, Module}
use gof_lang.Parser.Discriminant.{TokenDiscriminant, matches_kind}
use gof_lang.Parser.State.{Parser, split_eof, new_parser, at_end, advance, check}
use gof_lang.Parser.Item.{parse_import, parse_struct, parse_enum, parse_function}

-- `skip_newlines`, over the tokens that are left.
unfoldable pub skip_newlines_onto : List Token → Parser → Parser
skip_newlines_onto [] p = p
skip_newlines_onto (t ∷ ts) p = elim (matches_kind TokenDiscriminant.newline t.kind) [
  | true ↦ skip_newlines_onto ts (record p { previous = t; upcoming = ts })
  | false ↦ p
]

abbrev pub skip_newlines : Parser → Parser
skip_newlines p = skip_newlines_onto p.upcoming p

abbrev pub empty_module : Module
empty_module = record { imports = []; structs = []; enums = []; functions = [] }

abbrev pub push_import : Module → Import × Parser → Module × Parser
push_import m (i, p) = (record m { imports = m.imports ++ i ∷ [] }, p)

-- One round of the loop, after the newlines.
unfoldable pub parse_item : ℕ → Module → Parser → Option (Module × Parser)
parse_item n m p = elim (check TokenDiscriminant.import_kw p) [
  | true ↦ some (push_import m (parse_import p))
  | false ↦ elim (check TokenDiscriminant.struct_kw p) [
    | true ↦ (parse_struct n p >>= λ r. some (record m { structs = m.structs ++ r.0 ∷ [] }, r.1))
    | false ↦ elim (check TokenDiscriminant.enum_kw p) [
      | true ↦ (parse_enum n p >>= λ r. some (record m { enums = m.enums ++ r.0 ∷ [] }, r.1))
      | false ↦
          (parse_function n p >>= λ r. some (record m { functions = m.functions ++ r.0 ∷ [] }, r.1))
    ]
  ]
]

unfoldable pub parse_items : ℕ → Module → Parser → Option (Module × Parser)
parse_items zero m p = none
parse_items (suc n) m p = elim (at_end p) [
  | true ↦ some (m, p)
  | false ↦ elim (check TokenDiscriminant.eof (skip_newlines p)) [
    | true ↦ some (m, advance (skip_newlines p))
    | false ↦ (parse_item n m (skip_newlines p) >>= λ r. parse_items n r.0 r.1)
  ]
]

abbrev pub parse_module : ℕ → Parser → Option (Module × Parser)
parse_module n p = parse_items n empty_module p

pub data ParseResult : Type 0 where
  ok : Module → ParseResult
  err : Diagnostics → ParseResult

abbrev pub parse_result : Module × Parser → ParseResult
parse_result (m, p) = if is_empty p.diagnostics then ok m else err p.diagnostics

unfoldable pub parse : ℕ → List Token → Option ParseResult
parse n tokens = do
  (before, end) ← split_eof tokens
  parsed ← parse_module n (new_parser before end)
  some (parse_result parsed)
