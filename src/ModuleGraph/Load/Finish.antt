-- ===== src/ModuleGraph/Load/Finish.antt =====
-- `load_source` leaves its path loaded, and a valid state.
use gof_lang.Prelude.{
  ℕ, zero, suc, ◌≡◌, refl, ap, ◌∙◌, Bool, true, false, ◌||◌, List, [], ◌∷◌, ◌++◌, Option, none,
  some, Text, text_eq, if_cases, ◌>>=◌,
}
use gof_lang.Ast.Item.{Module}
use gof_lang.Parser.Module.{ParseResult}
use gof_lang.Source.Provider.{SourceFile, Provider, get, contains, is_some}
use gof_lang.Source.Maps.{get-same, get-other, is_some-later, is_some-none, text_eq-same}
use gof_lang.ModuleGraph.Resolve.{Resolver}
use gof_lang.ModuleGraph.Load.{
  Loaded, loaded, failed, pop, load_imports, finish_source, load_parsed, load_source,
  parse_single_source,
}
use gof_lang.ModuleGraph.Load.Order.{IsCanonical, IsValid, Grows-refl}
use gof_lang.ModuleGraph.Load.Imports.{Leaves, Adds, LoadsRight, AddsImports, imports-AddsImports}

module _ (provider : Provider) (canonical : IsCanonical provider) where
  pop-push : (xs : List Text) (x : Text) → pop (xs ++ x ∷ []) ≡ xs
  pop-push [] x = refl
  pop-push (y ∷ []) x = refl
  pop-push (y ∷ z ∷ zs) x = ap (◌∷◌ y) (pop-push (z ∷ zs) x)

  contains-push : (xs : List Text) (x : Text) → contains x (xs ++ x ∷ []) ≡ true
  contains-push [] x = ap (λ b. b || false) (text_eq-same x x refl)
  contains-push (y ∷ ys) x = or-true (text_eq y x) (contains x (ys ++ x ∷ [])) (contains-push ys x)
    where
      or-true : (a b : Bool) → b ≡ true → (a || b) ≡ true
      or-true true b h = refl
      or-true false b h = h

  contains-later :
      (xs : List Text) (x q : Text) → contains q xs ≡ true → contains q (xs ++ x ∷ []) ≡ true
  contains-later [] x q h = cc
  contains-later (y ∷ ys) x q h =
      or_mono (text_eq y q) (contains q ys) (contains q (ys ++ x ∷ [])) (contains-later ys x q) h
    where
      or_mono : (a b c : Bool) → (b ≡ true → c ≡ true) → (a || b) ≡ true → (a || c) ≡ true
      or_mono true b c k e = refl
      or_mono false b c k e = k e

  -- The state in which the imports of a module are loaded, and the state after them.
  pub opened-IsValid :
      (st : Resolver) (path : Text)
      → IsValid provider st
      → IsValid provider (record st { loading_stack = st.loading_stack ++ path ∷ [] })
  opened-IsValid st path v = record {
    order_is = v.order_is;
    once = v.once;
    cache = v.cache;
    imports = v.imports;
  }

  finished-Adds :
      (st st₂ : Resolver) (path : Text) (source : SourceFile) (m : Module)
      → contains path st.loading_stack ≡ false
      → get path st.modules ≡ none
      → AddsImports provider canonical path
          (record st { loading_stack = st.loading_stack ++ path ∷ [] })
          m.imports
          st₂
      → Adds provider canonical st path (record st₂ {
        loading_stack = pop st₂.loading_stack;
        load_order = st₂.load_order ++ path ∷ [];
        sources = (path, source) ∷ st₂.sources;
        modules = (path, m) ∷ st₂.modules;
      })
  finished-Adds st st₂ path source m off new (v, g, first) =
      let still_new = g.unloaded path (contains-push st.loading_stack path) new in
      (
        record {
          order_is = ap (λ o. o ++ path ∷ []) v.order_is;
          once = (still_new, v.once);
          cache = v.cache;
          imports = λ e. (first e, still_new, v.imports e);
        },
        record {
          stack = ap pop g.stack ∙ pop-push st.loading_stack path;
          kept = λ q h. is_some-later path q m st₂.modules (g.kept q h);
          unloaded = λ q on_stack absent.
              get-other path q m st₂.modules
                (λ e. cc (off, ap (λ p. contains p st.loading_stack) e, on_stack))
              ∙ g.unloaded q (contains-later st.loading_stack path q on_stack) absent;
          silent = λ e. g.silent e;
        },
        ap is_some (get-same path path m st₂.modules refl),
      )

  parsed-Adds :
      (load : SourceFile → Resolver → Option Loaded) (path : Text) (source : SourceFile)
      (st : Resolver) (r : ParseResult)
      → LoadsRight provider canonical load
      → IsValid provider st
      → provider.normalize_path path ≡ path
      → contains path st.loading_stack ≡ false
      → get path st.modules ≡ none
      → Leaves provider canonical
          (Adds provider canonical st path)
          (load_parsed provider load path source st r)
  parsed-Adds load path source st (ParseResult.err ds) right v stays off new = tt
  parsed-Adds load path source st (ParseResult.ok m) right v stays off new =
      let st₁ = record st { loading_stack = st.loading_stack ++ path ∷ [] } in
      finished (load_imports provider load path m.imports st₁) (
        imports-AddsImports provider canonical load right path m.imports st₁
          (opened-IsValid st path v) stays)
    where
      finished :
          (o : Option Loaded)
          → Leaves provider canonical
              (AddsImports provider canonical path
                (record st { loading_stack = st.loading_stack ++ path ∷ [] })
                m.imports)
              o
          → Leaves provider canonical
              (Adds provider canonical st path)
              (o >>= λ r. some (finish_source provider path source m r))
      finished none h = tt
      finished (some (failed ds)) h = tt
      finished (some (loaded st₂)) h = finished-Adds st st₂ path source m off new h

  -- With any fuel, `load_source` leaves a valid state, in which the path is loaded.
  pub load_source-Adds : (n : ℕ) → LoadsRight provider canonical (load_source provider n)
  unfolding load_source
  load_source-Adds zero source st v off = tt
  load_source-Adds (suc n) source st v off =
      let path = provider.normalize_path source.path in
      if_cases (Leaves provider canonical (Adds provider canonical st path))
        (is_some (get path st.modules)) (λ there. (v, Grows-refl st, there))
        (λ new.
          parsed (parse_single_source (record { path = path; text = source.text }))
            (load_source-Adds n) (is_some-none (get path st.modules) new))
    where
      parsed :
          (o : Option ParseResult)
          → LoadsRight provider canonical (load_source provider n)
          → get (provider.normalize_path source.path) st.modules ≡ none
          → Leaves provider canonical
              (Adds provider canonical st (provider.normalize_path source.path))
              (o >>= λ r.
                load_parsed provider
                  (load_source provider n)
                  (provider.normalize_path source.path)
                  (record { path = provider.normalize_path source.path; text = source.text })
                  st
                  r)
      parsed none right new = tt
      parsed (some r) right new =
          parsed-Adds (load_source provider n) (provider.normalize_path source.path) _ st r right v
            (canonical.stays source.path) off new
