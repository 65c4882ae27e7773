-- ===== src/ModuleGraph/Load/Fuel.antt =====
-- `load_source` ends: each module that is being loaded is another of the files that can be loaded.
use gof_lang.Prelude.{
  ℕ, zero, suc, ◌+◌, ◌≤◌, ◌≡◌, refl, sym, ap, subst, ◌∙◌, ◌≢◌, Bool, true, false, ◌||◌, List, [],
  ◌∷◌, ◌++◌, Option, some, Text, text_eq, All, All-append, elim_option, if_cases, length,
  length-append, ◌>>=◌, arith,
}
use gof_lang.Ast.Item.{Import}
use gof_lang.Lexer.Lex.{LexResult, lex}
use gof_lang.Lexer.Lex.Layout.{lex-IsSound}
use gof_lang.Parser.Module.{ParseResult}
use gof_lang.Parser.Lexed.{parse-answers}
use gof_lang.Source.Provider.{SourceFile, Provider, get, contains, is_some}
use gof_lang.Source.Maps.{text_eq-same}
use gof_lang.ModuleGraph.Resolve.{
  Resolver, Resolution, found, manifest_error, reserved_conflict, unresolved, resolve_import_path,
}
use gof_lang.ModuleGraph.Collect.Distinct.{AreDistinct, AreDistinct-push}
use gof_lang.ModuleGraph.Load.{
  Loaded, loaded, failed, parsed_at, parse_lexed, parse_single_source, load_found, load_resolved,
  load_imports, finish_source, load_parsed, load_source,
}
use gof_lang.ModuleGraph.Load.Order.{IsCanonical, resolution, IsValid}
use gof_lang.ModuleGraph.Load.Resolves.{resolution-canonical, resolve-Resolves, FoundCanonical}
use gof_lang.ModuleGraph.Load.Imports.{Leaves, LoadsRight, AddsImport, import-AddsImport}
use gof_lang.ModuleGraph.Load.Finish.{opened-IsValid, load_source-Adds}
use gof_lang.ModuleGraph.Load.Pigeonhole.{distinct-length}

pub parse_single_source-returns :
    (source : SourceFile) → (r : ParseResult) × (parse_single_source source ≡ some r)
unfolding parse_single_source
parse_single_source-returns source =
    let (result, same, _) = lex-IsSound source.text in
    let (r, e) = lexed result same in (r, ap (λ o. o >>= λ l. parse_lexed source.path l) same ∙ e)
  where
    lexed :
        (l : LexResult)
        → lex source.text ≡ some l
        → (r : ParseResult) × (parse_lexed source.path l ≡ some r)
    lexed (LexResult.ok tokens) e =
        let (r, returned, _) = parse-answers source.text tokens e in
        (parsed_at source.path r, ap (λ o. o >>= λ r. some (parsed_at source.path r)) returned)
    lexed (LexResult.err ds) e = (_, refl)

abbrev pub Returns : Option Loaded → Type 0
Returns o = (r : Loaded) × (o ≡ some r)

-- All that the provider loads are these files.
pub record ReadsFrom (provider : Provider) (files : List Text) : Type 0 where
  pub listed :
      (path : Text) (source : SourceFile)
      → provider.load_source path ≡ some source
      → contains (provider.normalize_path source.path) files ≡ true

apart-off : (stack : List Text) (x : Text) → contains x stack ≡ false → All (λ y. y ≢ x) stack
apart-off [] x h = tt
apart-off (y ∷ ys) x h = (
  λ e. cc (left (text_eq y x) (contains x ys) h, text_eq-same y x e),
  apart-off ys x (right (text_eq y x) (contains x ys) h),
)
  where
    left : (a b : Bool) → (a || b) ≡ false → a ≡ false
    left true b e = cc
    left false b e = refl

    right : (a b : Bool) → (a || b) ≡ false → b ≡ false
    right true b e = cc
    right false b e = e

module _ (provider : Provider) (canonical : IsCanonical provider) (files : List Text)
    (reads : ReadsFrom provider files) where
  -- The files on the stack differ, and with the fuel they are more than all files.
  abbrev HasRoom : ℕ → List Text → Type 0
  HasRoom n stack =
      AreDistinct stack
      × All (λ p. contains p files ≡ true) stack
      × (length files + 1 ≤ length stack + n)

  abbrev LoadsAll : ℕ → (SourceFile → Resolver → Option Loaded) → Type 0
  LoadsAll n load =
      (source : SourceFile) (st : Resolver)
      → IsValid provider st
      → contains (provider.normalize_path source.path) st.loading_stack ≡ false
      → contains (provider.normalize_path source.path) files ≡ true
      → HasRoom n st.loading_stack
      → Returns (load source st)

  push-HasRoom :
      (n : ℕ) (stack : List Text) (path : Text)
      → HasRoom (suc n) stack
      → contains path stack ≡ false
      → contains path files ≡ true
      → HasRoom n (stack ++ path ∷ [])
  push-HasRoom n stack path room off there = (
    AreDistinct-push stack path room.0 (apart-off stack path off),
    All-append _ stack (path ∷ []) room.1 (there, tt),
    omega (arith, room.2, length-append stack (path ∷ [])),
  )

  module _ (n : ℕ) (load : SourceFile → Resolver → Option Loaded) (all : LoadsAll n load)
      (right : LoadsRight provider canonical load) where
    resolved-Returns :
        (path : Text) (i : Import) (r : Resolution) (st : Resolver)
        → IsValid provider st
        → r ≡ resolution provider path i.module_name
        → HasRoom n st.loading_stack
        → Returns (load_resolved provider load path i (r, st))
    unfolding load_found
    resolved-Returns path i (found q) st v e room =
        if_cases Returns (contains q st.loading_stack) (λ _. (_, refl))
          λ off_stack.
            if_cases Returns (is_some (get q st.modules)) (λ _. (_, refl))
              λ _.
                elim_option Returns (provider.load_source q) (λ _. (_, refl))
                  (λ source read.
                    let here : provider.normalize_path source.path ≡ q =
                      canonical.loads q source read (
                        subst (FoundCanonical provider canonical) (sym e)
                          (resolution-canonical provider canonical path i.module_name)) in
                    all source st v (ap (λ r. contains r st.loading_stack) here ∙ off_stack)
                      (reads.listed q source read) room)
    resolved-Returns path i (manifest_error error) st v e room = (_, refl)
    resolved-Returns path i (reserved_conflict stdlib conflicts) st v e room = (_, refl)
    resolved-Returns path i (unresolved searched) st v e room = (_, refl)

    import-Returns :
        (path : Text) (i : Import) (st : Resolver)
        → IsValid provider st
        → provider.normalize_path path ≡ path
        → HasRoom n st.loading_stack
        → Returns (
            load_resolved provider load path i (resolve_import_path provider path i.module_name st))
    import-Returns path i st v stays room =
        let r = resolve_import_path provider path i.module_name st in
        let (same, v₁, g) = resolve-Resolves provider canonical path i.module_name st v stays in
        resolved-Returns path i r.0 r.1 v₁ same (subst (HasRoom n) (sym g.stack) room)

    imports-Returns :
        (path : Text) (is : List Import) (st : Resolver)
        → IsValid provider st
        → provider.normalize_path path ≡ path
        → HasRoom n st.loading_stack
        → Returns (load_imports provider load path is st)
    unfolding load_imports
    imports-Returns path [] st v stays room = (_, refl)
    imports-Returns path (i ∷ is) st v stays room =
        let (r, e) = import-Returns path i st v stays room in
        let left =
          subst (Leaves provider canonical (AddsImport provider canonical path st i)) e
            (import-AddsImport provider canonical load right path i st v stays) in
        let (s, e') = after r left (λ st₁ v₁ room₁. imports-Returns path is st₁ v₁ stays room₁) in
        (s, ap (λ o. o >>= next) e ∙ e')
      where
        next : Loaded → Option Loaded
        next r = elim r [
          | loaded st' ↦ load_imports provider load path is st'
          | failed ds ↦ some (failed ds)
        ]

        after :
            (r : Loaded)
            → Leaves provider canonical (AddsImport provider canonical path st i) (some r)
            → ((st₁ : Resolver)
                → IsValid provider st₁
                → HasRoom n st₁.loading_stack
                → Returns (load_imports provider load path is st₁))
            → Returns (next r)
        after (failed ds) h more = (_, refl)
        after (loaded st₁) h more = more st₁ h.0 (subst (HasRoom n) (sym h.1.stack) room)

  -- With fuel for one more module than there are files besides those on the stack, `load_source`
  -- returns.
  pub load_source-Returns : (n : ℕ) → LoadsAll n (load_source provider n)
  unfolding load_source
  load_source-Returns zero source st v off there room =
      absurd (omega (arith, room.2, distinct-length st.loading_stack files room.0 room.1))
  load_source-Returns (suc n) source st v off there room =
      let path = provider.normalize_path source.path in
      let file : SourceFile = record { path = path; text = source.text } in
      if_cases Returns (is_some (get path st.modules)) (λ _. (_, refl))
        λ _.
          let (r, e) = parse_single_source-returns file in
          let (s, e') = parsed r (load_source-Returns n) in
          (
            s,
            ap (λ o. o >>= λ r. load_parsed provider (load_source provider n) path file st r) e
                ∙ e',
          )
    where
      parsed :
          (r : ParseResult)
          → LoadsAll n (load_source provider n)
          → Returns (
              load_parsed provider
                (load_source provider n)
                (provider.normalize_path source.path)
                (record { path = provider.normalize_path source.path; text = source.text })
                st
                r)
      parsed (ParseResult.err ds) all = (_, refl)
      parsed (ParseResult.ok m) all =
          let path = provider.normalize_path source.path in
          let st₁ : Resolver = record st { loading_stack = st.loading_stack ++ path ∷ [] } in
          let (r, e) =
            imports-Returns n (load_source provider n) all (load_source-Adds provider canonical n)
              path m.imports st₁ (opened-IsValid provider canonical st path v)
              (canonical.stays source.path) (push-HasRoom n st.loading_stack path room off there) in
          (
            _,
            ap
                (λ o. o >>= λ r.
                  some
                    (finish_source provider path (record { path = path; text = source.text }) m r))
                e,
          )
