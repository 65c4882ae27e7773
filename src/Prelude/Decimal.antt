-- ===== src/Prelude/Decimal.antt =====
-- Decimal numbers: what `{}` prints of a `usize`, and what `parse` reads of digits.
use Prim.Native.Nat.{ℕ, zero, suc, ◌+◌, ◌-◌, ◌*◌, ◌/◌, ◌%◌, ◌<◌}
use mathlib.Core.Path.{◌≡◌, sym, ap, ◌∙◌}
use mathlib.Core.Logic.{inl, inr}
use mathlib.Core.Bool.{true}
use mathlib.Core.List.{[], ◌∷◌}
use native.Mathlib.Omega.{arith}
use gof_lang.Prelude.Tests.{ltb, within, if◌then◌else◌, Bool-cases}
use gof_lang.Prelude.Lists.{All}
use gof_lang.Prelude.Texts.{Text}

unfoldable pub digits_value : ℕ → Text → ℕ
digits_value acc [] = acc
digits_value acc (c ∷ cs) = digits_value (acc * 10 + (c - b'0')) cs

-- The fuel is one more than the number, and is enough: `digits_value-decimal`.
unfoldable pub decimal_onto : ℕ → ℕ → Text → Text
decimal_onto zero n acc = acc
decimal_onto (suc fuel) n acc =
    let digits = (b'0' + n % 10) ∷ acc in
    let rest = decimal_onto fuel (n / 10) digits in if ltb n 10 then digits else rest

unfoldable pub decimal : ℕ → Text
decimal n = decimal_onto (suc n) n []

digits_value-decimal_onto :
    (fuel n : ℕ) (acc : Text)
    → n < fuel
    → digits_value 0 (decimal_onto fuel n acc) ≡ digits_value n acc
unfolding digits_value decimal_onto
digits_value-decimal_onto zero n acc h = elim h [ ]
digits_value-decimal_onto (suc fuel) n acc h = elim (Bool-cases (ltb n 10)) [
  | inl last ↦ rw last (ap (λ k. digits_value k acc) (ground arith))
  | inr more ↦ rw more (
      digits_value-decimal_onto fuel (n / 10) ((b'0' + n % 10) ∷ acc) (ground arith)
      ∙ ap (λ k. digits_value k acc) (omega arith))
]

-- Reading back what is printed gives the number.
pub digits_value-decimal : (n : ℕ) → digits_value 0 (decimal n) ≡ n
unfolding decimal digits_value
digits_value-decimal n = digits_value-decimal_onto (suc n) n [] (omega arith)

pub decimal-injective : (m n : ℕ) → decimal m ≡ decimal n → m ≡ n
decimal-injective m n h =
    sym (digits_value-decimal m) ∙ ap (digits_value 0) h ∙ digits_value-decimal n

abbrev pub IsDigits : Text → Type 0
IsDigits = All (λ c. within b'0' b'9' c ≡ true)

decimal_onto-IsDigits :
    (fuel n : ℕ) (acc : Text) → IsDigits acc → IsDigits (decimal_onto fuel n acc)
unfolding decimal_onto
decimal_onto-IsDigits zero n acc h = h
decimal_onto-IsDigits (suc fuel) n acc h = elim (Bool-cases (ltb n 10)) [
  | inl last ↦ rw last (ground arith, h)
  | inr more ↦ rw more (decimal_onto-IsDigits fuel (n / 10) _ (ground arith, h))
]

pub decimal-IsDigits : (n : ℕ) → IsDigits (decimal n)
unfolding decimal
decimal-IsDigits n = decimal_onto-IsDigits (suc n) n [] tt

decimal_onto-ne-nil : (fuel n c : ℕ) (acc : Text) → (decimal_onto fuel n (c ∷ acc) ≡ []) → ⊥
unfolding decimal_onto
decimal_onto-ne-nil zero n c acc h = cc
decimal_onto-ne-nil (suc fuel) n c acc h = elim (Bool-cases (ltb n 10)) [
  | inl last ↦ cc (rw last at h)
  | inr more ↦ decimal_onto-ne-nil fuel (n / 10) (b'0' + n % 10) (c ∷ acc) (rw more at h)
]

pub decimal-ne-nil : (n : ℕ) → (decimal n ≡ []) → ⊥
unfolding decimal decimal_onto
decimal-ne-nil n h = elim (Bool-cases (ltb n 10)) [
  | inl last ↦ cc (rw last at h)
  | inr more ↦ decimal_onto-ne-nil n (n / 10) (b'0' + n % 10) [] (rw more at h)
]
