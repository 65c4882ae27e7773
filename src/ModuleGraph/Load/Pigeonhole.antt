-- ===== src/ModuleGraph/Load/Pigeonhole.antt =====
-- Distinct elements of a list are no more than the list is long.
use gof_lang.Prelude.{
  suc, ◌≤◌, ◌≡◌, refl, ap, ◌∙◌, sym, ◌≢◌, Bool, true, false, ◌||◌, List, [], ◌∷◌, Text, text_eq,
  text_eq_iff, All, Bool-cases, inl, inr, length, if◌then◌else◌, arith,
}
use gof_lang.Source.Provider.{contains}
use gof_lang.ModuleGraph.Collect.Distinct.{AreDistinct}

abbrev remove : Text → List Text → List Text
remove x [] = []
remove x (y ∷ ys) = if text_eq y x then ys else y ∷ remove x ys

length-remove :
    (x : Text) (ys : List Text) → contains x ys ≡ true → length ys ≡ suc (length (remove x ys))
length-remove x [] h = cc
length-remove x (y ∷ ys) h = elim (Bool-cases (text_eq y x)) [
  | inl same ↦ rw same refl
  | inr differ ↦
      rw differ (ap suc (length-remove x ys (ap (λ b. b || contains x ys) (sym differ) ∙ h)))
]

contains-remove :
    (x z : Text) (ys : List Text) → z ≢ x → contains z ys ≡ true → contains z (remove x ys) ≡ true
contains-remove x z [] apart h = cc
contains-remove x z (y ∷ ys) apart h = elim (Bool-cases (text_eq y x)) [
  | inl same ↦ rw same (
      skip (text_eq y z) (contains z ys)
        (λ e. apart (sym ((text_eq_iff y z).0 e) ∙ (text_eq_iff y x).0 same)) h)
  | inr differ ↦ rw differ (
      or_mono (text_eq y z) (contains z ys) (contains z (remove x ys))
        (contains-remove x z ys apart) h)
]
  where
    skip : (a b : Bool) → ¬ (a ≡ true) → (a || b) ≡ true → b ≡ true
    skip true b k e = absurd (k refl)
    skip false b k e = e

    or_mono : (a b c : Bool) → (b ≡ true → c ≡ true) → (a || b) ≡ true → (a || c) ≡ true
    or_mono true b c k e = refl
    or_mono false b c k e = k e

removed :
    (x : Text) (zs ys : List Text)
    → All (λ z. z ≢ x) zs
    → All (λ z. contains z ys ≡ true) zs
    → All (λ z. contains z (remove x ys) ≡ true) zs
removed x [] ys a h = tt
removed x (z ∷ zs) ys a h = (contains-remove x z ys a.0 h.0, removed x zs ys a.1 h.1)

pub distinct-length :
    (xs ys : List Text)
    → AreDistinct xs
    → All (λ x. contains x ys ≡ true) xs
    → length xs ≤ length ys
distinct-length [] ys d h = omega arith
distinct-length (x ∷ xs) ys d h =
    omega (
      arith,
      length-remove x ys h.0,
      distinct-length xs (remove x ys) d.1 (removed x xs ys d.0 h.1),
    )
