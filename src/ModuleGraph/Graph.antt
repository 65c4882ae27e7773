-- ===== src/ModuleGraph/Graph.antt =====
-- compiler/gof-compiler/src/module_graph.rs: `load_module_graph_with_provider`, on the fuel of
-- `load_source`.
mod Tests
pub mod Correct
use gof_lang.Prelude.{
  ℕ, Bool, true, false, List, [], ◌∷◌, ◌++◌, Option, none, some, Text, is_empty, ◌>>=◌,
  if◌then◌else◌,
}
use gof_lang.Diagnostics.{Diagnostics}
use gof_lang.Ast.Item.{Import, Module}
use gof_lang.Source.Provider.{SourceFile, Provider, get}
use gof_lang.ModuleGraph.Resolve.{Resolver, new_resolver}
use gof_lang.ModuleGraph.Load.{Loaded, loaded, failed, load_source}
use gof_lang.ModuleGraph.Collect.{Collected, nothing_collected, collect_items}

pub record LoadedModuleGraph : Type 0 where
  pub module_of : Module
  pub sources : List SourceFile

pub data GraphResult : Type 0 where
  ok : LoadedModuleGraph → GraphResult
  err : Diagnostics → GraphResult

abbrev pub imports_or_none : Option Module → List Import
imports_or_none none = []
imports_or_none (some m) = m.imports

-- `filter_map` over the load order.
abbrev pub loaded_sources : List (Text × SourceFile) → List Text → List SourceFile
loaded_sources sources [] = []
loaded_sources sources (path ∷ paths) = elim (get path sources) [
  | none ↦ loaded_sources sources paths
  | some source ↦ source ∷ loaded_sources sources paths
]

abbrev pub graph_of : Text → Resolver → Collected → GraphResult
graph_of root st items =
    if is_empty items.diagnostics
    then GraphResult.ok (record {
      module_of = record {
        imports = imports_or_none (get root st.modules);
        structs = items.structs;
        enums = items.enums;
        functions = items.functions;
      };
      sources = loaded_sources st.sources st.load_order;
    })
    else GraphResult.err items.diagnostics

abbrev pub collect_loaded : Text → Loaded → Option GraphResult
collect_loaded root (failed ds) = some (GraphResult.err ds)
collect_loaded root (loaded st) =
    (collect_items st.modules st.load_order (nothing_collected st.diagnostics) >>= λ items.
    some (graph_of root st items))

unfoldable pub load_module_graph_with_provider : Provider → ℕ → SourceFile → Option GraphResult
load_module_graph_with_provider provider n source = do
  r ← load_source provider n source new_resolver
  collect_loaded (provider.normalize_path source.path) r
