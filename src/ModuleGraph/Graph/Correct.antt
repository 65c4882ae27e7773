-- ===== src/ModuleGraph/Graph/Correct.antt =====
-- The module graph is returned, and imports come before the modules that import them.
use mathlib.Core.Option.{some-injective}
use gof_lang.Prelude.{
  ℕ, ◌+◌, ◌≡◌, refl, sym, ap, subst, ◌∙◌, true, List, [], ◌∷◌, Option, none, some, Text, All,
  All-append, All-weaken, is_empty, length, ◌>>=◌, >>=-eq-some, Bool-cases, inl, inr, arith,
}
use gof_lang.Diagnostics.{Diagnostics}
use gof_lang.Ast.Item.{Module}
use gof_lang.Source.Provider.{SourceFile, Provider, get, contains, is_some}
use gof_lang.Source.Maps.{get-same, is_some-later}
use gof_lang.ModuleGraph.Resolve.{Resolver, new_resolver}
use gof_lang.ModuleGraph.Load.{Loaded, loaded, failed, load_source}
use gof_lang.ModuleGraph.Load.Order.{IsCanonical, ImportsFirst, paths_of, IsValid}
use gof_lang.ModuleGraph.Load.Imports.{Leaves, Adds}
use gof_lang.ModuleGraph.Load.Finish.{load_source-Adds}
use gof_lang.ModuleGraph.Load.Fuel.{ReadsFrom, load_source-Returns}
use gof_lang.ModuleGraph.Collect.{Collected, nothing_collected, collect_module, collect_items}
use gof_lang.ModuleGraph.Collect.Account.{items-Adds}
use gof_lang.ModuleGraph.Graph.{
  LoadedModuleGraph, GraphResult, graph_of, collect_loaded, load_module_graph_with_provider,
}

new-IsValid : (provider : Provider) → IsValid provider new_resolver
new-IsValid provider = record {
  order_is = refl;
  once = tt;
  cache = λ p c n g. cc;
  imports = λ e. tt;
}

-- Every path of the load order has its module.
paths-Loaded :
    (modules : List (Text × Module)) → All (λ p. is_some (get p modules) ≡ true) (paths_of modules)
paths-Loaded [] = tt
paths-Loaded ((path, m) ∷ rest) =
    All-append _ (paths_of rest) (path ∷ [])
      (All-weaken _ _ (paths_of rest) (λ p h. is_some-later path p m rest h) (paths-Loaded rest))
      (ap is_some (get-same path path m rest refl), tt)

collect_items-Returns :
    (modules : List (Text × Module)) (paths : List Text) (st : Collected)
    → All (λ p. is_some (get p modules) ≡ true) paths
    → (end : Collected) × (collect_items modules paths st ≡ some end)
unfolding collect_items
collect_items-Returns modules [] st h = (st, refl)
collect_items-Returns modules (path ∷ paths) st h =
    by_module (get path modules) h.0
      (λ m. collect_items-Returns modules paths (collect_module path st m) h.1)
  where
    by_module :
        (o : Option Module)
        → is_some o ≡ true
        → ((m : Module)
            → (end : Collected) × (collect_items modules paths (collect_module path st m)
                ≡ some end))
        → (end : Collected) × (elim o [
          | none ↦ none
          | some m ↦ collect_items modules paths (collect_module path st m)
        ]
            ≡ some end)
    by_module none e k = cc
    by_module (some m) e k = k m

module _ (provider : Provider) (canonical : IsCanonical provider) where
  collect_loaded-Returns :
      (root : Text) (r : Loaded)
      → Leaves provider canonical (Adds provider canonical new_resolver root) (some r)
      → (g : GraphResult) × (collect_loaded root r ≡ some g)
  collect_loaded-Returns root (failed ds) h = (_, refl)
  collect_loaded-Returns root (loaded st) h =
      let (items, e) =
        collect_items-Returns st.modules st.load_order (nothing_collected st.diagnostics) (
          subst (All (λ p. is_some (get p st.modules) ≡ true)) (sym h.0.order_is)
            (paths-Loaded st.modules)) in
      (graph_of root st items, ap (λ o. o >>= λ items. some (graph_of root st items)) e)

  load-Adds :
      (n : ℕ) (source : SourceFile)
      → Leaves provider canonical
          (Adds provider canonical new_resolver (provider.normalize_path source.path))
          (load_source provider n source new_resolver)
  load-Adds n source =
      load_source-Adds provider canonical n source new_resolver (new-IsValid provider) refl

-- If the provider's paths are canonical and it loads only some files, the source among them, then
-- the loading of the module graph returns, with fuel for one module more than there are files. So
-- it ends on every program, import cycles included, and does not panic.
pub load_module_graph-returns :
    (provider : Provider) (files : List Text) (source : SourceFile)
    → IsCanonical provider
    → ReadsFrom provider files
    → contains (provider.normalize_path source.path) files ≡ true
    → (g : GraphResult) × (load_module_graph_with_provider provider (length files + 1) source
        ≡ some g)
unfolding load_module_graph_with_provider
load_module_graph-returns provider files source canonical reads there =
    let root = provider.normalize_path source.path in
    let (r, e) =
      load_source-Returns provider canonical files reads (length files + 1) source new_resolver
        (new-IsValid provider) refl there (tt, tt, omega arith) in
    let left =
      subst (Leaves provider canonical (Adds provider canonical new_resolver root)) e
        (load-Adds provider canonical (length files + 1) source) in
    let (g, e') = collect_loaded-Returns provider canonical root r left in
    (g, ap (λ o. o >>= collect_loaded root) e ∙ e')

-- What is known of a graph that is loaded without a diagnostic.
pub record IsOrdered (provider : Provider) (root : Text) (st : Resolver) : Type 0 where
  pub order_is : st.load_order ≡ paths_of st.modules
  pub imports_first : ImportsFirst provider st.modules
  pub root_loaded : is_some (get root st.modules) ≡ true

graph-ok :
    (provider : Provider) (canonical : IsCanonical provider) (root : Text) (r : Loaded)
    (g : LoadedModuleGraph)
    → Leaves provider canonical (Adds provider canonical new_resolver root) (some r)
    → collect_loaded root r ≡ some (GraphResult.ok g)
    → (st : Resolver) × (r ≡ loaded st) × IsOrdered provider root st
graph-ok provider canonical root (failed ds) g h e = cc
graph-ok provider canonical root (loaded st) g h e =
    let (items, collected, result) =
      >>=-eq-some (collect_items st.modules st.load_order (nothing_collected st.diagnostics))
        (λ items. some (graph_of root st items)) e in
    let quiet =
      (items-Adds st.modules st.load_order (nothing_collected st.diagnostics) items collected).1 in
    let ok_is = some-injective (graph_of root st items) (GraphResult.ok g) result in
    (
      st,
      refl,
      record {
        order_is = h.0.order_is;
        imports_first = h.0.imports (quiet (empty items ok_is));
        root_loaded = h.2;
      },
    )
  where
    none_left : (ds : Diagnostics) → is_empty ds ≡ true → ds ≡ []
    none_left [] q = refl
    none_left (d ∷ ds) q = cc

    empty : (items : Collected) → graph_of root st items ≡ GraphResult.ok g → items.diagnostics ≡ []
    empty items q = elim (Bool-cases (is_empty items.diagnostics)) [
      | inl clean ↦ none_left items.diagnostics clean
      | inr unclean ↦ cc (rw unclean at q)
    ]

-- If the provider's paths are canonical and the loading succeeds, then the source's module is
-- loaded, the load order has each loaded module once, and every import of a loaded module resolves
-- to a module that stands before it in that order. In particular no import cycle is left.
pub load_module_graph-IsOrdered :
    (provider : Provider) (n : ℕ) (source : SourceFile) (g : LoadedModuleGraph)
    → IsCanonical provider
    → load_module_graph_with_provider provider n source ≡ some (GraphResult.ok g)
    → (st : Resolver) × (load_source provider n source new_resolver ≡ some (loaded st))
      × IsOrdered provider (provider.normalize_path source.path) st
unfolding load_module_graph_with_provider
load_module_graph-IsOrdered provider n source g canonical h =
    let root = provider.normalize_path source.path in
    let (r, e, collected) =
      >>=-eq-some (load_source provider n source new_resolver) (collect_loaded root) h in
    let left =
      subst (Leaves provider canonical (Adds provider canonical new_resolver root)) e
        (load-Adds provider canonical n source) in
    let (st, same, ordered) = graph-ok provider canonical root r g left collected in
    (st, e ∙ ap some same, ordered)
