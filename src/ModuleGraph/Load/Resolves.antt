-- ===== src/ModuleGraph/Load/Resolves.antt =====
-- The resolution of an import: its path is canonical, and the cache makes no difference.
use mathlib.Core.Option.{some-injective}
use gof_lang.Prelude.{
  ◌≡◌, refl, sym, ap, ◌∙◌, List, [], ◌∷◌, ◌++◌, Option, none, some, Text, text_eq, text_eq_iff,
  Bool-cases, inl, inr, if◌then◌else◌, elim_option, if_cases, is_empty, not,
}
use gof_lang.Source.Provider.{Provider, PackageContext, LocalDependency, ContextResult, get}
use gof_lang.ModuleGraph.Resolve.{
  Resolver, Resolution, found, same_directory_candidate, module_file, cached_context,
  stdlib_conflicts, resolve_dependency, resolve_in_package, resolve_with, resolve_after,
  resolve_import_path,
}
use gof_lang.Source.Maps.{get-same}
use gof_lang.ModuleGraph.Load.Order.{
  IsCanonical, resolution_in, resolution, CacheIsRight, IsValid, Grows, Grows-refl,
}

module _ (provider : Provider) (canonical : IsCanonical provider) where
  -- A path that is found is canonical.
  abbrev pub FoundCanonical : Resolution → Type 0
  FoundCanonical (found q) = provider.normalize_path q ≡ q
  FoundCanonical _ = Unit

  dependency-canonical :
      (searched : List Text) (o : Option LocalDependency)
      → FoundCanonical (resolve_dependency provider searched o)
  dependency-canonical searched none = tt
  dependency-canonical searched (some dependency) =
      if_cases FoundCanonical (provider.is_file dependency.entry_path)
        (λ _. canonical.stays dependency.entry_path) (λ _. tt)

  package-canonical :
      (same name : Text) (searched : List Text) (o : Option PackageContext)
      → FoundCanonical (resolve_in_package provider same name searched o)
  package-canonical same name searched none = tt
  package-canonical same name searched (some context) =
      let root = module_file context.source_root name in
      if_cases FoundCanonical (text_eq root same)
        (λ _. dependency-canonical searched (get name context.dependencies))
        (λ _.
          if_cases FoundCanonical (provider.is_file root) (λ _. canonical.stays root)
            (λ _. dependency-canonical (searched ++ root ∷ []) (get name context.dependencies)))

  with-canonical :
      (same name : Text) (o : Option PackageContext)
      → FoundCanonical (resolve_with provider same name o)
  unfolding resolve_with
  with-canonical same name o =
      elim_option FoundCanonical (provider.stdlib_module_path name)
        (λ _.
          if_cases FoundCanonical (provider.is_file same) (λ _. canonical.stays same)
            (λ _. package-canonical same name (same ∷ []) o))
        (λ path _.
          if_cases FoundCanonical (not (is_empty (stdlib_conflicts provider same name o))) (λ _. tt)
            (λ _.
              if_cases FoundCanonical (provider.is_file path) (λ _. canonical.stays path)
                (λ _. package-canonical same name (same ∷ path ∷ []) o)))

  pub resolution-canonical :
      (current name : Text) → FoundCanonical (resolution provider current name)
  resolution-canonical current name = in_context (provider.package_context_for_source current)
    where
      in_context : (r : ContextResult) → FoundCanonical (resolution_in provider current name r)
      in_context (ContextResult.ok context) =
          with-canonical (same_directory_candidate current name) name context
      in_context (ContextResult.err error) = tt

  -- What a resolution leaves: it is that without the cache, and only the cache has changed.
  abbrev pub Resolves : Text → Text → Resolver → Resolution × Resolver → Type 0
  Resolves current name st (r, st') =
      (r ≡ resolution provider current name) × IsValid provider st' × Grows st st'

  cached-IsValid :
      (st : Resolver) (path : Text) (context : Option PackageContext)
      → IsValid provider st
      → provider.normalize_path path ≡ path
      → provider.package_context_for_source path ≡ ContextResult.ok context
      → IsValid provider (record st {
        package_contexts = (provider.normalize_path path, context) ∷ st.package_contexts;
      })
  cached-IsValid st path context v stays e = record {
    order_is = v.order_is;
    once = v.once;
    cache = at;
    imports = v.imports;
  }
    where
      at : CacheIsRight provider ((provider.normalize_path path, context) ∷ st.package_contexts)
      at p c n g = elim (Bool-cases (text_eq (provider.normalize_path path) p)) [
        | inl same ↦
            let key : provider.normalize_path path ≡ p =
              (text_eq_iff (provider.normalize_path path) p).0 same in
            let found_is : context ≡ c = some-injective context c (
              sym (get-same (provider.normalize_path path) p context st.package_contexts key)
              ∙ g) in
            ap provider.package_context_for_source (sym (sym stays ∙ key))
            ∙ (e ∙ ap ContextResult.ok found_is)
        | inr differ ↦
            v.cache p c n
              (sym (ap (λ b. if b then some context else get p st.package_contexts) differ) ∙ g)
      ]

  pub resolve-Resolves :
      (current name : Text) (st : Resolver)
      → IsValid provider st
      → provider.normalize_path current ≡ current
      → Resolves current name st (resolve_import_path provider current name st)
  unfolding cached_context
  resolve-Resolves current name st v stays =
      elim_option (λ r. Resolves current name st (resolve_after provider current name r))
        (get (provider.normalize_path current) st.package_contexts)
        (λ _. asked (provider.package_context_for_source current) refl)
        (λ context hit.
          let known =
            v.cache current context stays (ap (λ k. get k st.package_contexts) (sym stays) ∙ hit) in
          (ap (resolution_in provider current name) (sym known), v, Grows-refl st))
    where
      asked :
          (r : ContextResult)
          → provider.package_context_for_source current ≡ r
          → Resolves current name st (
              resolve_after provider current name (elim r [
                | ContextResult.ok context ↦ (
                  ContextResult.ok context,
                  record st {
                    package_contexts =
                        (provider.normalize_path current, context) ∷ st.package_contexts;
                  },
                )
                | ContextResult.err error ↦ (ContextResult.err error, st)
              ]))
      asked (ContextResult.ok context) e = (
        ap (resolution_in provider current name) (sym e),
        cached-IsValid st current context v stays e,
        record { stack = refl; kept = λ q h. h; unloaded = λ q _ h. h; silent = λ h. h },
      )
      asked (ContextResult.err error) e =
          (ap (resolution_in provider current name) (sym e), v, Grows-refl st)
