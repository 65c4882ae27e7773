-- ===== src/ModuleGraph/Embedded.antt =====
-- The embedded sources of compiler/gof-compiler/src/source.rs have canonical paths, and are finitely
-- many.
use mathlib.Core.Option.{some-injective}
use gof_lang.Prelude.{
  ◌≡◌, refl, sym, ap, ◌∙◌, Bool, true, false, ◌||◌, List, [], ◌∷◌, some, Text, text_eq, text_eq_iff,
  Bool-cases, inl, inr, if◌then◌else◌,
}
use gof_lang.Source.Provider.{SourceFile, get, contains, EmbeddedSourceProvider, embedded_provider}
use gof_lang.Source.Maps.{text_eq-same}
use gof_lang.ModuleGraph.Load.Order.{IsCanonical}
use gof_lang.ModuleGraph.Load.Fuel.{ReadsFrom}

-- Each source has its canonical path as its key, as `EmbeddedSourceProvider::new` has it.
abbrev pub AreKeyed : (Text → Text) → List (Text × SourceFile) → Type 0
AreKeyed normalize [] = Unit
AreKeyed normalize ((k, s) ∷ rest) = (k ≡ normalize s.path) × AreKeyed normalize rest

abbrev pub keys_of : List (Text × SourceFile) → List Text
keys_of [] = []
keys_of ((k, s) ∷ rest) = k ∷ keys_of rest

get-keyed :
    (normalize : Text → Text) (sources : List (Text × SourceFile)) (key : Text) (s : SourceFile)
    → AreKeyed normalize sources
    → get key sources ≡ some s
    → (normalize s.path ≡ key) × (contains (normalize s.path) (keys_of sources) ≡ true)
get-keyed normalize [] key s h e = cc
get-keyed normalize ((k, t) ∷ rest) key s h e = elim (Bool-cases (text_eq k key)) [
  | inl same ↦
      let is : t ≡ s =
        some-injective t s (sym (ap (λ b. if b then some t else get key rest) same) ∙ e) in
      let path_is : k ≡ normalize s.path = h.0 ∙ ap (λ (x : SourceFile). normalize x.path) is in
      (
        sym path_is ∙ (text_eq_iff k key).0 same,
        ap (λ b. b || contains (normalize s.path) (keys_of rest))
            (text_eq-same k (normalize s.path) path_is),
      )
  | inr differ ↦
      let (here, there) =
        get-keyed normalize rest key s h.1
          (sym (ap (λ b. if b then some t else get key rest) differ) ∙ e) in
      (
        here,
        or-true (text_eq k (normalize s.path)) (contains (normalize s.path) (keys_of rest)) there,
      )
]
  where
    or-true : (a b : Bool) → b ≡ true → (a || b) ≡ true
    or-true true b g = refl
    or-true false b g = g

module _ (normalize : Text → Text) (root : Text) (bundle : EmbeddedSourceProvider) where
  pub embedded-IsCanonical :
      ((path : Text) → normalize (normalize path) ≡ normalize path)
      → AreKeyed normalize bundle.sources
      → IsCanonical (embedded_provider normalize root bundle)
  embedded-IsCanonical stays keyed = record {
    stays = stays;
    loads = λ path s e canonical.
        (get-keyed normalize bundle.sources (normalize path) s keyed e).0 ∙ canonical;
  }

  pub embedded-ReadsFrom :
      AreKeyed normalize bundle.sources
      → ReadsFrom (embedded_provider normalize root bundle) (keys_of bundle.sources)
  embedded-ReadsFrom keyed = record {
    listed = λ path s e. (get-keyed normalize bundle.sources (normalize path) s keyed e).1;
  }
