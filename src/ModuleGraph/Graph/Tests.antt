-- ===== src/ModuleGraph/Graph/Tests.antt =====
-- A program of two embedded modules, and the theorems of the module graph at it.
use gof_lang.Prelude.{
  ◌+◌, ◌≡◌, ◌≢◌, refl, true, List, [], ◌∷◌, some, Text, codes, text_eq, length, lines,
  is_whitespace, digits_value,
}
use gof_lang.Source.{span}
use gof_lang.Source.Provider.{
  SourceFile, Provider, EmbeddedSourceProvider, embedded_provider, contains,
}
use gof_lang.Ast.Item.{StructDecl, EnumDecl, Module}
use gof_lang.Lexer.Chars.{
  word_kind, find_keyword, keywords, is_ident_start, is_ident_continue, parse_i64_or_default,
}
use gof_lang.Lexer.Line.{lex_chars, lex_char, lex_word, lex_symbol}
use gof_lang.Lexer.Lex.{
  lex, lex_lines, lex_source_line, layout, lex_rest, pop_indents, close_all, finish, count_from,
}
use gof_lang.Parser.Discriminant.{matches_kind}
use gof_lang.Parser.State.{split_eof, expect, expect_ident}
use gof_lang.Parser.Item.{parse_import}
use gof_lang.Parser.Module.{parse, parse_items, parse_item, skip_newlines_onto, empty_module}
use gof_lang.ModuleGraph.Resolve.{Resolver, new_resolver, cached_context, resolve_with}
use gof_lang.ModuleGraph.Load.{loaded, parse_single_source, load_found, load_imports, load_source}
use gof_lang.ModuleGraph.Collect.{Collected, nothing_collected, collect_items}
use gof_lang.ModuleGraph.Collect.Distinct.{HaveUniqueNames}
use gof_lang.ModuleGraph.Collect.Kept.{collect_items-HaveUniqueNames}
use gof_lang.ModuleGraph.Collect.Account.{
  accounted, declared, collect_items-accounted, codes_of, both, with_struct, with_enum,
  collect_items-struct_enum,
}
use gof_lang.ModuleGraph.Graph.{LoadedModuleGraph, GraphResult, load_module_graph_with_provider}
use gof_lang.ModuleGraph.Graph.Correct.{
  IsOrdered, load_module_graph-returns, load_module_graph-IsOrdered,
}
use gof_lang.ModuleGraph.Embedded.{embedded-IsCanonical, embedded-ReadsFrom}

abbrev helper : SourceFile
helper = record { path = codes "/b/a.gof"; text = [] }

abbrev main : SourceFile
main = record { path = codes "/b/main.gof"; text = codes "import a\n" }

abbrev bundle : EmbeddedSourceProvider
bundle = record { sources = (helper.path, helper) ∷ (main.path, main) ∷ []; package_contexts = [] }

abbrev provider : Provider
provider = embedded_provider (λ path. path) (codes "/w") bundle

abbrev files : List Text
files = helper.path ∷ main.path ∷ []

abbrev graph : LoadedModuleGraph
graph = record {
  module_of = record empty_module {
    imports = (record { module_name = codes "a"; span = span 1 1 7 }) ∷ [];
  };
  sources = helper ∷ main ∷ [];
}

load_module_graph-returns_example :
    (g : GraphResult) × (load_module_graph_with_provider provider (length files + 1) main ≡ some g)
unfolding text_eq
load_module_graph-returns_example =
    load_module_graph-returns provider files main
      (embedded-IsCanonical (λ path. path) (codes "/w") bundle (λ path. refl) (refl, (refl, tt)))
      (embedded-ReadsFrom (λ path. path) (codes "/w") bundle (refl, (refl, tt))) contains_main
  where
    contains_main : contains main.path files ≡ true
    contains_main = refl

loads : load_module_graph_with_provider provider 3 main ≡ some (GraphResult.ok graph)
unfolding load_module_graph_with_provider load_source load_imports load_found parse_single_source
    cached_context resolve_with collect_items lex lex_lines lex_source_line layout lex_rest
    pop_indents count_from close_all finish lex_chars lex_char lex_word lex_symbol word_kind
    find_keyword keywords is_ident_start is_ident_continue parse_i64_or_default digits_value lines
    is_whitespace text_eq parse split_eof parse_items skip_newlines_onto parse_item parse_import
    expect expect_ident matches_kind
loads = refl

load_module_graph-IsOrdered_example :
    (st : Resolver) × (load_source provider 3 main new_resolver ≡ some (loaded st))
    × IsOrdered provider (codes "/b/main.gof") st
load_module_graph-IsOrdered_example =
    load_module_graph-IsOrdered provider 3 main graph
      (embedded-IsCanonical (λ path. path) (codes "/w") bundle (λ path. refl) (refl, (refl, tt)))
      loads

abbrev point : StructDecl
point = record { name = codes "P"; fields = []; span = span 1 1 7; source_path = [] }

abbrev status : EnumDecl
status = record { name = codes "P"; variants = []; span = span 1 1 5; source_path = [] }

-- The same struct twice.
abbrev twice : List (Text × Module)
twice = (codes "p", with_struct point) ∷ (codes "q", with_struct point) ∷ []

abbrev paths : List Text
paths = codes "p" ∷ codes "q" ∷ []

collected : (end : Collected) × (collect_items twice paths (nothing_collected []) ≡ some end)
unfolding collect_items text_eq
collected = (_, refl)

collect_items-HaveUniqueNames_example : HaveUniqueNames collected.0
collect_items-HaveUniqueNames_example =
    collect_items-HaveUniqueNames twice paths [] collected.0 collected.1

collect_items-accounted_example : accounted collected.0 ≡ declared twice paths + 0
collect_items-accounted_example = collect_items-accounted twice paths [] collected.0 collected.1

apart : codes "p" ≢ []
apart = cc

collect_items-struct_enum_example :
    (codes_of (both (codes "p") (with_struct point) [] (with_enum status)) ≡ codes "GOF3021" ∷ [])
    × ((end : Collected) × (both (codes "p") (with_enum status) [] (with_struct point) ≡ some end)
        × (end.diagnostics ≡ [])
        × (end.structs ≡ point ∷ [])
        × (end.enums ≡ status ∷ []))
collect_items-struct_enum_example = collect_items-struct_enum (codes "p") [] point status apart refl
