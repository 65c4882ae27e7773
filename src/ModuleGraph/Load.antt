-- ===== src/ModuleGraph/Load.antt =====
-- compiler/gof-compiler/src/module_graph.rs: `parse_single_source` and `load_source`. The recursion
-- over imports is on fuel; `none` means that it has run out. An error of `load_source` takes all
-- diagnostics with it, and each caller passes it on at once.
pub mod Order
pub mod Resolves
pub mod Imports
pub mod Finish
pub mod Pigeonhole
pub mod Fuel
use gof_lang.Prelude.{
  ℕ, zero, suc, ◌+◌, ◌*◌, Bool, true, false, List, [], ◌∷◌, ◌++◌, map, Option, none, some, Text,
  text_eq, length, ◌>>=◌, if◌then◌else◌,
}
use gof_lang.Diagnostics.{Diagnostics, push, with_source_path}
use gof_lang.Lexer.Lex.{LexResult, lex}
use gof_lang.Ast.Item.{Import, StructDecl, EnumDecl, Function, Module}
use gof_lang.Parser.Module.{ParseResult, parse}
use gof_lang.Source.Provider.{SourceFile, Provider, get, contains, is_some}
use gof_lang.ModuleGraph.Resolve.{
  Resolver, Resolution, found, manifest_error, reserved_conflict, unresolved, resolve_import_path,
}
use gof_lang.ModuleGraph.Messages.{
  package_manifest_diagnostic, import_resolution_missing_file_diagnostic,
  reserved_stdlib_conflict_diagnostic, unresolved_diagnostic, cycle_diagnostic,
}

-- Each item gets the path of its source.
abbrev pub place_struct : Text → StructDecl → StructDecl
place_struct path decl = record decl { source_path = path }

abbrev pub place_enum : Text → EnumDecl → EnumDecl
place_enum path decl = record decl { source_path = path }

abbrev pub place_function : Text → Function → Function
place_function path decl = record decl { source_path = path }

abbrev pub placed : Text → Module → Module
placed path m = record m {
  structs = map (place_struct path) m.structs;
  enums = map (place_enum path) m.enums;
  functions = map (place_function path) m.functions;
}

abbrev pub at_path : Text → Diagnostics → Diagnostics
at_path path ds = map (λ d. with_source_path d path) ds

abbrev pub parsed_at : Text → ParseResult → ParseResult
parsed_at path (ParseResult.ok m) = ParseResult.ok (placed path m)
parsed_at path (ParseResult.err ds) = ParseResult.err (at_path path ds)

-- The parser has fuel for every text.
abbrev pub parse_lexed : Text → LexResult → Option ParseResult
parse_lexed path (LexResult.ok tokens) =
    (parse (30 * length tokens + 29) tokens >>= λ r. some (parsed_at path r))
parse_lexed path (LexResult.err ds) = some (ParseResult.err (at_path path ds))

unfoldable pub parse_single_source : SourceFile → Option ParseResult
parse_single_source source = do result ← lex source.text; parse_lexed source.path result

pub data Loaded : Type 0 where
  loaded : Resolver → Loaded
  failed : Diagnostics → Loaded

abbrev pub report : Resolver → Diagnostics → Loaded
report st ds = loaded (record st { diagnostics = st.diagnostics ++ ds })

-- `loading_stack[position..]`, with the path that closes the cycle. The stack is a list with the
-- path that was pushed last at the end.
abbrev pub from_position : Text → List Text → List Text
from_position path [] = []
from_position path (p ∷ ps) = if text_eq p path then p ∷ ps else from_position path ps

abbrev pub pop : List Text → List Text
pop [] = []
pop (p ∷ []) = []
pop (p ∷ q ∷ ps) = p ∷ pop (q ∷ ps)

module _ (provider : Provider) where
  module _ (load : SourceFile → Resolver → Option Loaded) where
    -- The file of an import, if it has to be loaded.
    unfoldable pub load_found : Text → Import → Text → Resolver → Option Loaded
    load_found path i import_path st =
        if contains import_path st.loading_stack
        then some (
            report st (
              cycle_diagnostic path i.module_name i.span
                (from_position import_path st.loading_stack ++ import_path ∷ [])
              ∷ []))
        else if is_some (get import_path st.modules)
        then some (loaded st)
        else elim (provider.load_source import_path) [
          | some source ↦ load source st
          | none ↦ some (
              report st (
                import_resolution_missing_file_diagnostic path i.module_name i.span import_path
                ∷ []))
        ]

    -- The body of `for import in &module.imports`.
    abbrev pub load_resolved : Text → Import → Resolution × Resolver → Option Loaded
    load_resolved path i (found import_path, st) = load_found path i import_path st
    load_resolved path i (manifest_error error, st) =
        some (report st (package_manifest_diagnostic path i.span error ∷ []))
    load_resolved path i (reserved_conflict stdlib_path conflicts, st) = some (
        report st (
          reserved_stdlib_conflict_diagnostic path i.module_name i.span stdlib_path conflicts ∷ []))
    load_resolved path i (unresolved searched, st) =
        some (report st (unresolved_diagnostic path i.module_name i.span searched ∷ []))

    unfoldable pub load_imports : Text → List Import → Resolver → Option Loaded
    load_imports path [] st = some (loaded st)
    load_imports path (i ∷ is) st =
        (load_resolved path i (resolve_import_path provider path i.module_name st) >>= λ r. elim r [
          | loaded st' ↦ load_imports path is st'
          | failed ds ↦ some (failed ds)
        ])

  -- The end of `load_source`.
  abbrev pub finish_source : Text → SourceFile → Module → Loaded → Loaded
  finish_source path source m (failed ds) = failed ds
  finish_source path source m (loaded st) = loaded (record st {
    loading_stack = pop st.loading_stack;
    load_order = st.load_order ++ path ∷ [];
    sources = (path, source) ∷ st.sources;
    modules = (path, m) ∷ st.modules;
  })

  abbrev pub load_parsed :
      (SourceFile → Resolver → Option Loaded)
      → Text
      → SourceFile
      → Resolver
      → ParseResult
      → Option Loaded
  load_parsed load path source st (ParseResult.err ds) = some (failed (st.diagnostics ++ ds))
  load_parsed load path source st (ParseResult.ok m) =
      (load_imports load path m.imports
          (record st { loading_stack = st.loading_stack ++ path ∷ [] })
        >>= λ r. some (finish_source path source m r))

  unfoldable pub load_source : ℕ → SourceFile → Resolver → Option Loaded
  load_source zero source st = none
  load_source (suc n) source st =
      let path = provider.normalize_path source.path in
      let normalized : SourceFile = record { path = path; text = source.text } in
      if is_some (get path st.modules)
      then some (loaded st)
      else (parse_single_source normalized >>= λ r.
          load_parsed (load_source n) path normalized st r)
