-- ===== src/Prelude/Cases.antt =====
-- Values that an `elim` is on.
use mathlib.Core.Path.{◌≡◌, refl, ap}
use mathlib.Core.Bool.{Bool, true, false}
use mathlib.Core.Option.{Option, none, some, some-injective}

-- To split on the value that an `elim` is on, with the equation.
pub elim_bool {ℓ κ} :
    {A : Type ℓ} (P : A → Type κ) (b : Bool) {x y : A}
    → (b ≡ true → P x)
    → (b ≡ false → P y)
    → P (elim b [ true ↦ x | false ↦ y ])
elim_bool P true h k = h refl
elim_bool P false h k = k refl

pub elim_option {ℓ κ μ} :
    {A : Type ℓ} {B : Type μ} (P : A → Type κ) (o : Option B) {x : A} {f : B → A}
    → (o ≡ none → P x)
    → ((b : B) → o ≡ some b → P (f b))
    → P (elim o [ none ↦ x | some b ↦ f b ])
elim_option P none h k = h refl
elim_option P (some b) h k = k b refl

-- What an `elim` on a known value is.
pub elim_true {ℓ} :
    {A : Type ℓ} (b : Bool) (x y : A) → b ≡ true → elim b [ true ↦ x | false ↦ y ] ≡ x
elim_true true x y h = refl
elim_true false x y h = cc

pub elim_false {ℓ} :
    {A : Type ℓ} (b : Bool) (x y : A) → b ≡ false → elim b [ true ↦ x | false ↦ y ] ≡ y
elim_false true x y h = cc
elim_false false x y h = refl

pub elim_none {ℓ μ} :
    {A : Type ℓ} {B : Type μ} (o : Option B) (x : A) (f : B → A)
    → o ≡ none
    → elim o [ none ↦ x | some b ↦ f b ] ≡ x
elim_none none x f h = refl
elim_none (some b) x f h = cc

pub elim_some {ℓ μ} :
    {A : Type ℓ} {B : Type μ} (o : Option B) (b : B) (x : A) (f : B → A)
    → o ≡ some b
    → elim o [ none ↦ x | some b ↦ f b ] ≡ f b
elim_some none b x f h = cc
elim_some (some a) b x f h = ap f (some-injective a b h)
