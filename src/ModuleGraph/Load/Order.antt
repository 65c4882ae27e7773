-- ===== src/ModuleGraph/Load/Order.antt =====
-- What the resolver keeps: imports come before the modules that import them.
use gof_lang.Prelude.{
  ◌≡◌, refl, sym, subst, ◌∙◌, ◌≢◌, true, List, [], ◌∷◌, ◌++◌, Option, none, some, Text, All,
}
use gof_lang.Diagnostics.{Diagnostic, Diagnostics}
use gof_lang.Ast.Item.{Import, Module}
use gof_lang.Source.Provider.{
  SourceFile, Provider, PackageContext, ContextResult, get, contains, is_some,
}
use gof_lang.ModuleGraph.Resolve.{
  Resolver, Resolution, found, manifest_error, same_directory_candidate, resolve_with,
}

-- What a provider's paths are like: a canonical path stays as it is, and the file that is loaded
-- from a canonical path has that path.
pub record IsCanonical (provider : Provider) : Type 0 where
  pub stays :
      (path : Text)
      → provider.normalize_path (provider.normalize_path path) ≡ provider.normalize_path path
  pub loads :
      (path : Text) (source : SourceFile)
      → provider.load_source path ≡ some source
      → provider.normalize_path path ≡ path
      → provider.normalize_path source.path ≡ path

module _ (provider : Provider) where
  -- The resolution of an import, without the cache.
  abbrev pub resolution_in : Text → Text → ContextResult → Resolution
  resolution_in current name (ContextResult.ok context) =
      resolve_with provider (same_directory_candidate current name) name context
  resolution_in current name (ContextResult.err error) = manifest_error error

  abbrev pub resolution : Text → Text → Resolution
  resolution current name = resolution_in current name (provider.package_context_for_source current)

  -- The import stands for a module that is among these.
  abbrev pub IsLoaded : Text → List (Text × Module) → Import → Type 0
  IsLoaded path modules i =
      (q : Text) × (resolution path i.module_name ≡ found q) × (is_some (get q modules) ≡ true)

  -- Modules, the last loaded first: the imports of each are among those that were loaded before it,
  -- and it is not.
  abbrev pub ImportsFirst : List (Text × Module) → Type 0
  ImportsFirst [] = Unit
  ImportsFirst ((path, m) ∷ rest) =
      All (IsLoaded path rest) m.imports × (get path rest ≡ none) × ImportsFirst rest

  abbrev pub AreOnce : List (Text × Module) → Type 0
  AreOnce [] = Unit
  AreOnce ((path, m) ∷ rest) = (get path rest ≡ none) × AreOnce rest

abbrev pub paths_of : List (Text × Module) → List Text
paths_of [] = []
paths_of ((path, m) ∷ rest) = paths_of rest ++ path ∷ []

module _ (provider : Provider) where
  abbrev pub CacheIsRight : List (Text × Option PackageContext) → Type 0
  CacheIsRight cache =
      (path : Text) (context : Option PackageContext)
      → provider.normalize_path path ≡ path
      → get path cache ≡ some context
      → provider.package_context_for_source path ≡ ContextResult.ok context

  -- Between two steps.
  pub record IsValid (st : Resolver) : Type 0 where
    pub order_is : st.load_order ≡ paths_of st.modules
    pub once : AreOnce provider st.modules
    pub cache : CacheIsRight st.package_contexts
    pub imports : st.diagnostics ≡ [] → ImportsFirst provider st.modules

-- What a step leaves: the stack as it was, and what is loaded; nothing on the stack is loaded.
pub record Grows (st st' : Resolver) : Type 0 where
  pub stack : st'.loading_stack ≡ st.loading_stack
  pub kept : (q : Text) → is_some (get q st.modules) ≡ true → is_some (get q st'.modules) ≡ true
  pub unloaded :
      (q : Text)
      → contains q st.loading_stack ≡ true
      → get q st.modules ≡ none
      → get q st'.modules ≡ none
  pub silent : st'.diagnostics ≡ [] → st.diagnostics ≡ []

pub Grows-refl : (st : Resolver) → Grows st st
Grows-refl st = record { stack = refl; kept = λ q h. h; unloaded = λ q _ h. h; silent = λ h. h }

pub Grows-trans : (a b c : Resolver) → Grows a b → Grows b c → Grows a c
Grows-trans a b c h k = record {
  stack = k.stack ∙ h.stack;
  kept = λ q e. k.kept q (h.kept q e);
  unloaded =
      λ q s e. k.unloaded q (subst (λ l. contains q l ≡ true) (sym h.stack) s) (h.unloaded q s e);
  silent = λ e. h.silent (k.silent e);
}

not-silent : (ds : Diagnostics) (d : Diagnostic) → ds ++ d ∷ [] ≢ []
not-silent [] d h = cc
not-silent (e ∷ es) d h = cc

-- A report.
pub report-IsValid :
    (provider : Provider) (st : Resolver) (d : Diagnostic)
    → IsValid provider st
    → IsValid provider (record st { diagnostics = st.diagnostics ++ d ∷ [] })
report-IsValid provider st d v = record {
  order_is = v.order_is;
  once = v.once;
  cache = v.cache;
  imports = λ e. absurd (not-silent st.diagnostics d e);
}

pub report-Grows :
    (st : Resolver) (d : Diagnostic)
    → Grows st (record st { diagnostics = st.diagnostics ++ d ∷ [] })
report-Grows st d = record {
  stack = refl;
  kept = λ q h. h;
  unloaded = λ q _ h. h;
  silent = λ e. absurd (not-silent st.diagnostics d e);
}

pub silent-absurd {ℓ} : {A : Type ℓ} (ds : Diagnostics) (d : Diagnostic) → ds ++ d ∷ [] ≡ [] → A
silent-absurd ds d h = absurd (not-silent ds d h)
