-- ===== src/Prelude/Options.antt =====
-- `Option` as a monad: the chains of steps that can fail.
use mathlib.Core.Path.{◌≡◌, refl, ap}
use mathlib.Core.List.{List, [], ◌∷◌, ◌++◌}
use mathlib.Core.Option.{Option, none, some}

infixl 5 ◌>>=◌
abbrev pub ◌>>=◌ {ℓ κ} : {A : Type ℓ} {B : Type κ} → Option A → (A → Option B) → Option B
none >>= f = none
some a >>= f = f a

pub >>=-eq-some {ℓ κ} :
    {A : Type ℓ} {B : Type κ} (m : Option A) (f : A → Option B) {b : B}
    → (m >>= f) ≡ some b
    → (a : A) × (m ≡ some a) × (f a ≡ some b)
>>=-eq-some none f h = cc
>>=-eq-some (some a) f h = (a, refl, h)

-- A list of steps, each of which can fail.
module _ {ℓ κ} {S : Type ℓ} {A : Type κ} (step : S → A → Option S) where
  abbrev pub steps : S → List A → Option S
  steps s [] = some s
  steps s (a ∷ as_) = step s a >>= λ t. steps t as_

  pub steps-append :
      (s : S) (xs ys : List A) {t : S} → steps s xs ≡ some t → steps s (xs ++ ys) ≡ steps t ys
  steps-append s [] ys h = cc (ap (λ o. o >>= λ t. steps t ys) h)
  steps-append s (x ∷ xs) ys h =
      let (t, first, later) = >>=-eq-some (step s x) (λ t. steps t xs) h in
      rw first (steps-append t xs ys later)
