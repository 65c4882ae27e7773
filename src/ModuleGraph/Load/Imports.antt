-- ===== src/ModuleGraph/Load/Imports.antt =====
-- The loading of a module leaves its imports loaded before it.
use gof_lang.Prelude.{
  ◌≡◌, sym, ap, subst, ◌∙◌, true, false, List, [], ◌∷◌, ◌++◌, Option, none, some, Text, All,
  elim_option, if_cases, ◌>>=◌,
}
use gof_lang.Diagnostics.{Diagnostic}
use gof_lang.Ast.Item.{Import}
use gof_lang.Source.Provider.{SourceFile, Provider, get, contains, is_some}
use gof_lang.ModuleGraph.Resolve.{
  Resolver, Resolution, found, manifest_error, reserved_conflict, unresolved, resolve_import_path,
}
use gof_lang.ModuleGraph.Load.{Loaded, loaded, failed, load_found, load_resolved, load_imports}
use gof_lang.ModuleGraph.Load.Order.{
  IsCanonical, resolution, IsLoaded, IsValid, Grows, Grows-refl, Grows-trans, report-IsValid,
  report-Grows, silent-absurd,
}
use gof_lang.ModuleGraph.Load.Resolves.{resolution-canonical, resolve-Resolves, FoundCanonical}

module _ (provider : Provider) (canonical : IsCanonical provider) where
  -- What is known of a result.
  abbrev pub Leaves {ℓ} : (Resolver → Type ℓ) → Option Loaded → Type ℓ
  Leaves P none = Unit
  Leaves P (some (failed ds)) = Unit
  Leaves P (some (loaded st)) = P st

  -- The path is loaded after the step, and nothing else has changed for what was there before.
  abbrev pub Adds : Resolver → Text → Resolver → Type 0
  Adds st path st' = IsValid provider st' × Grows st st' × (is_some (get path st'.modules) ≡ true)

  abbrev pub LoadsRight : (SourceFile → Resolver → Option Loaded) → Type 0
  LoadsRight load =
      (source : SourceFile) (st : Resolver)
      → IsValid provider st
      → contains (provider.normalize_path source.path) st.loading_stack ≡ false
      → Leaves (Adds st (provider.normalize_path source.path)) (load source st)

  -- After an import: it is loaded, if there is no diagnostic.
  abbrev pub AddsImport : Text → Resolver → Import → Resolver → Type 0
  AddsImport path st i st' =
      IsValid provider st'
      × Grows st st'
      × (st'.diagnostics ≡ [] → IsLoaded provider path st'.modules i)

  abbrev pub AddsImports : Text → Resolver → List Import → Resolver → Type 0
  AddsImports path st is st' =
      IsValid provider st'
      × Grows st st'
      × (st'.diagnostics ≡ [] → All (IsLoaded provider path st'.modules) is)

  reported-AddsImport :
      (path : Text) (st : Resolver) (i : Import) (d : Diagnostic)
      → IsValid provider st
      → AddsImport path st i (record st { diagnostics = st.diagnostics ++ d ∷ [] })
  reported-AddsImport path st i d v =
      (report-IsValid provider st d v, report-Grows st d, λ e. silent-absurd st.diagnostics d e)

  module _ (load : SourceFile → Resolver → Option Loaded) (right : LoadsRight load) where
    found-AddsImport :
        (path : Text) (i : Import) (q : Text) (st : Resolver)
        → IsValid provider st
        → resolution provider path i.module_name ≡ found q
        → Leaves (AddsImport path st i) (load_found provider load path i q st)
    unfolding load_found
    found-AddsImport path i q st v resolved =
        if_cases (Leaves (AddsImport path st i)) (contains q st.loading_stack)
          (λ _. reported-AddsImport path st i _ v)
          λ off_stack.
            if_cases (Leaves (AddsImport path st i)) (is_some (get q st.modules))
              (λ there. (v, Grows-refl st, λ _. (q, resolved, there)))
              λ _.
                elim_option (Leaves (AddsImport path st i)) (provider.load_source q)
                  (λ _. reported-AddsImport path st i _ v)
                  (λ source read.
                    let here : provider.normalize_path source.path ≡ q =
                      canonical.loads q source read (
                        subst (FoundCanonical provider canonical) resolved
                          (resolution-canonical provider canonical path i.module_name)) in
                    narrow (load source st) (
                      subst (λ r. Leaves (Adds st r) (load source st)) here
                        (right source st v
                          (ap (λ r. contains r st.loading_stack) here ∙ off_stack))))
      where
        narrow : (o : Option Loaded) → Leaves (Adds st q) o → Leaves (AddsImport path st i) o
        narrow none h = tt
        narrow (some (failed ds)) h = tt
        narrow (some (loaded st')) h = (h.0, h.1, λ _. (q, resolved, h.2))

    resolved-AddsImport :
        (path : Text) (i : Import) (r : Resolution) (st : Resolver)
        → IsValid provider st
        → r ≡ resolution provider path i.module_name
        → Leaves (AddsImport path st i) (load_resolved provider load path i (r, st))
    resolved-AddsImport path i (found q) st v e = found-AddsImport path i q st v (sym e)
    resolved-AddsImport path i (manifest_error error) st v e = reported-AddsImport path st i _ v
    resolved-AddsImport path i (reserved_conflict stdlib conflicts) st v e =
        reported-AddsImport path st i _ v
    resolved-AddsImport path i (unresolved searched) st v e = reported-AddsImport path st i _ v

    -- What holds after the resolution holds from before it.
    from_before :
        (path : Text) (i : Import) (st st₁ : Resolver) (o : Option Loaded)
        → Grows st st₁
        → Leaves (AddsImport path st₁ i) o
        → Leaves (AddsImport path st i) o
    from_before path i st st₁ none g h = tt
    from_before path i st st₁ (some (failed ds)) g h = tt
    from_before path i st st₁ (some (loaded st')) g h = (h.0, Grows-trans st st₁ st' g h.1, h.2)

    pub import-AddsImport :
        (path : Text) (i : Import) (st : Resolver)
        → IsValid provider st
        → provider.normalize_path path ≡ path
        → Leaves (AddsImport path st i) (
            load_resolved provider load path i (resolve_import_path provider path i.module_name st))
    import-AddsImport path i st v stays =
        let r = resolve_import_path provider path i.module_name st in
        let (same, v₁, g) = resolve-Resolves provider canonical path i.module_name st v stays in
        from_before path i st r.1 _ g (resolved-AddsImport path i r.0 r.1 v₁ same)

    kept-IsLoaded :
        (path : Text) (st st' : Resolver) (i : Import)
        → Grows st st'
        → IsLoaded provider path st.modules i
        → IsLoaded provider path st'.modules i
    kept-IsLoaded path st st' i g (q, resolved, there) = (q, resolved, g.kept q there)

    pub imports-AddsImports :
        (path : Text) (is : List Import) (st : Resolver)
        → IsValid provider st
        → provider.normalize_path path ≡ path
        → Leaves (AddsImports path st is) (load_imports provider load path is st)
    unfolding load_imports
    imports-AddsImports path [] st v stays = (v, Grows-refl st, λ _. tt)
    imports-AddsImports path (i ∷ is) st v stays =
        after
          (load_resolved provider load path i (resolve_import_path provider path i.module_name st))
          (import-AddsImport path i st v stays) (λ st₁ v₁. imports-AddsImports path is st₁ v₁ stays)
      where
        later :
            (st₁ : Resolver) (o : Option Loaded)
            → AddsImport path st i st₁
            → Leaves (AddsImports path st₁ is) o
            → Leaves (AddsImports path st (i ∷ is)) o
        later st₁ none h k = tt
        later st₁ (some (failed ds)) h k = tt
        later st₁ (some (loaded st')) h k = (
          k.0,
          Grows-trans st st₁ st' h.1 k.1,
          λ e. (kept-IsLoaded path st₁ st' i k.1 (h.2 (k.1.silent e)), k.2 e),
        )

        after :
            (o : Option Loaded)
            → Leaves (AddsImport path st i) o
            → ((st₁ : Resolver)
                → IsValid provider st₁
                → Leaves (AddsImports path st₁ is) (load_imports provider load path is st₁))
            → Leaves (AddsImports path st (i ∷ is)) (
                o >>= λ r. elim r [
                  | loaded st' ↦ load_imports provider load path is st'
                  | failed ds ↦ some (failed ds)
                ])
        after none h more = tt
        after (some (failed ds)) h more = tt
        after (some (loaded st₁)) h more =
            later st₁ (load_imports provider load path is st₁) h (more st₁ h.0)
