-- ===== src/ModuleGraph/Resolve.antt =====
-- compiler/gof-compiler/src/module_graph.rs: the state of the resolver, and the path of an import.
use gof_lang.Prelude.{
  not, ◌&&◌, List, [], ◌∷◌, ◌++◌, Option, none, some, Text, codes, text_eq, is_empty, if◌then◌else◌,
}
use gof_lang.Diagnostics.{Diagnostics}
use gof_lang.Ast.Item.{Module}
use gof_lang.Source.Provider.{
  SourceFile, parent, join_path, get, PackageContext, LocalDependency, PackageManifestError,
  ContextResult, Provider,
}

-- `ModuleResolver`, with the diagnostics that its methods are given.
pub record Resolver : Type 0 where
  pub modules : List (Text × Module)
  pub sources : List (Text × SourceFile)
  pub package_contexts : List (Text × Option PackageContext)
  pub load_order : List Text
  pub loading_stack : List Text
  pub diagnostics : Diagnostics

-- `ModuleResolver::new`
abbrev pub new_resolver : Resolver
new_resolver = record {
  modules = [];
  sources = [];
  package_contexts = [];
  load_order = [];
  loading_stack = [];
  diagnostics = [];
}

pub data Resolution : Type 0 where
  found : Text → Resolution
  manifest_error : PackageManifestError → Resolution
  reserved_conflict : Text → List Text → Resolution
  unresolved : List Text → Resolution

abbrev pub or_dot : Option Text → Text
or_dot none = codes "."
or_dot (some path) = path

abbrev pub module_file : Text → Text → Text
module_file directory name = join_path directory (name ++ codes ".gof")

abbrev pub same_directory_candidate : Text → Text → Text
same_directory_candidate current name = module_file (or_dot (parent current)) name

module _ (provider : Provider) where
  -- `package_context_for_source`: what is found is kept, an error is not.
  unfoldable pub cached_context : Text → Resolver → ContextResult × Resolver
  cached_context path st =
      let key = provider.normalize_path path in
      elim (get key st.package_contexts) [
        | some context ↦ (ContextResult.ok context, st)
        | none ↦ elim (provider.package_context_for_source path) [
          | ContextResult.ok context ↦ (
            ContextResult.ok context,
            record st { package_contexts = (key, context) ∷ st.package_contexts },
          )
          | ContextResult.err error ↦ (ContextResult.err error, st)
        ]
      ]

  -- What stands in the way of a module of the standard library.
  abbrev pub root_conflict : Text → Text → List Text
  root_conflict same root =
      if not (text_eq root same) && provider.is_file root
      then (codes "package-root module at " ++ root) ∷ []
      else []

  abbrev pub dependency_conflict : Text → Option LocalDependency → List Text
  dependency_conflict name none = []
  dependency_conflict name (some dependency) =
      (codes "local dependency alias `"
        ++ (name ++ (codes "` targeting " ++ dependency.entry_path)))
      ∷ []

  abbrev pub package_conflicts : Text → Text → Option PackageContext → List Text
  package_conflicts same name none = []
  package_conflicts same name (some context) =
      root_conflict same (module_file context.source_root name)
      ++ dependency_conflict name (get name context.dependencies)

  abbrev pub stdlib_conflicts : Text → Text → Option PackageContext → List Text
  stdlib_conflicts same name context =
      (if provider.is_file same then (codes "same-directory module at " ++ same) ∷ [] else [])
      ++ package_conflicts same name context

  -- The dependency of that name, after the candidates that were searched.
  abbrev pub resolve_dependency : List Text → Option LocalDependency → Resolution
  resolve_dependency searched none = unresolved searched
  resolve_dependency searched (some dependency) =
      if provider.is_file dependency.entry_path
      then found (provider.normalize_path dependency.entry_path)
      else unresolved (searched ++ dependency.entry_path ∷ [])

  abbrev pub resolve_in_package : Text → Text → List Text → Option PackageContext → Resolution
  resolve_in_package same name searched none = unresolved searched
  resolve_in_package same name searched (some context) =
      let root = module_file context.source_root name in
      let dependency = get name context.dependencies in
      if text_eq root same
      then resolve_dependency searched dependency
      else if provider.is_file root
      then found (provider.normalize_path root)
      else resolve_dependency (searched ++ root ∷ []) dependency

  unfoldable pub resolve_with : Text → Text → Option PackageContext → Resolution
  resolve_with same name context = elim (provider.stdlib_module_path name) [
    | some path ↦
        let conflicts = stdlib_conflicts same name context in
        if not (is_empty conflicts)
        then reserved_conflict path conflicts
        else if provider.is_file path
        then found (provider.normalize_path path)
        else resolve_in_package same name (same ∷ path ∷ []) context
    | none ↦
        if provider.is_file same
        then found (provider.normalize_path same)
        else resolve_in_package same name (same ∷ []) context
  ]

  abbrev pub resolve_after : Text → Text → ContextResult × Resolver → Resolution × Resolver
  resolve_after current name (ContextResult.ok context, st) =
      (resolve_with (same_directory_candidate current name) name context, st)
  resolve_after current name (ContextResult.err error, st) = (manifest_error error, st)

  abbrev pub resolve_import_path : Text → Text → Resolver → Resolution × Resolver
  resolve_import_path current name st = resolve_after current name (cached_context current st)
