-- ===== src/Source/Maps.antt =====
-- Lookup in a map with texts as keys.
use gof_lang.Prelude.{
  ◌≡◌, refl, ap, ◌∙◌, ◌≢◌, true, false, List, ◌∷◌, Option, none, some, Text, text_eq, text_eq_iff,
  Bool-cases, inl, inr, if◌then◌else◌,
}
use gof_lang.Source.Provider.{get, is_some}

pub text_eq-same : (a b : Text) → a ≡ b → text_eq a b ≡ true
text_eq-same a b e = (text_eq_iff a b).1 e

pub text_eq-other : (a b : Text) → a ≢ b → text_eq a b ≡ false
text_eq-other a b h = elim (Bool-cases (text_eq a b)) [
  | inl same ↦ absurd (h ((text_eq_iff a b).0 same))
  | inr differ ↦ differ
]

module _ {ℓ} {A : Type ℓ} (k key : Text) (a : A) (rest : List (Text × A)) where
  pub get-same : k ≡ key → get key ((k, a) ∷ rest) ≡ some a
  get-same e = ap (λ b. if b then some a else get key rest) (text_eq-same k key e)

  pub get-other : k ≢ key → get key ((k, a) ∷ rest) ≡ get key rest
  get-other h = ap (λ b. if b then some a else get key rest) (text_eq-other k key h)

  pub is_some-later : is_some (get key rest) ≡ true → is_some (get key ((k, a) ∷ rest)) ≡ true
  is_some-later h = elim (Bool-cases (text_eq k key)) [
    | inl same ↦ ap (λ b. is_some (if b then some a else get key rest)) same
    | inr differ ↦ ap (λ b. is_some (if b then some a else get key rest)) differ ∙ h
  ]

pub is_some-none {ℓ} : {A : Type ℓ} (o : Option A) → is_some o ≡ false → o ≡ none
is_some-none none h = refl
is_some-none (some a) h = cc
