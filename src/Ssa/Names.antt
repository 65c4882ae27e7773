-- ===== src/Ssa/Names.antt =====
-- Each temporary of a lowered function is the name of exactly one value.
use mathlib.Core.List.{Mem, Nodup, Nodup-nil, Nodup-cons, mem-cons, not-mem-nil}
use mathlib.Core.Logic.Or
use native.Mathlib.Bridge.{le_prop}
use gof_lang.Prelude.{
  ℕ, zero, suc, ◌+◌, ◌≤◌, ◌≡◌, refl, sym, subst, ap, ◌∙◌, Bool, true, false, ◌&&◌, List, [], ◌∷◌,
  map, Option, none, some, Text, within, ◌==◌, if◌then◌else◌, length, decimal, decimal-IsDigits,
  decimal-ne-nil, decimal-injective, IsDigits, arith,
}
use gof_lang.TypedHir.{TypedFunction}
use gof_lang.Mir.Instruction.{MirInstruction}
use gof_lang.Mir.Builder
use gof_lang.Mir.Numbering.{dest}
use gof_lang.Mir.Numbering.Stmts.{dests, range_from, lower_function-AreNumbered}
use gof_lang.Ssa.Instruction.{SsaValue}
use gof_lang.Ssa.Lower.{temp, lower_instruction, lower_function}

abbrev all_digits : Text → Bool
all_digits [] = true
all_digits (c ∷ cs) = within b'0' b'9' c && all_digits cs

-- The form of the names of temporaries: `%` and at least one digit.
unfoldable pub is_temp_name : Text → Bool
is_temp_name [] = false
is_temp_name (c ∷ []) = false
is_temp_name (c ∷ d ∷ ds) = c == b'%' && all_digits (d ∷ ds)

all_digits-IsDigits : (cs : Text) → IsDigits cs → all_digits cs ≡ true
all_digits-IsDigits [] h = refl
all_digits-IsDigits (c ∷ cs) h = rw (h.0, all_digits-IsDigits cs h.1)

is_temp_name-digits : (cs : Text) → (cs ≡ [] → ⊥) → IsDigits cs → is_temp_name (b'%' ∷ cs) ≡ true
unfolding is_temp_name
is_temp_name-digits [] ne h = absurd (ne refl)
is_temp_name-digits (c ∷ cs) ne h = all_digits-IsDigits (c ∷ cs) h

is_temp_name-temp : (n : ℕ) → is_temp_name (temp n) ≡ true
unfolding temp
is_temp_name-temp n = is_temp_name-digits (decimal n) (decimal-ne-nil n) (decimal-IsDigits n)

tail : Text → Text
tail [] = []
tail (_ ∷ cs) = cs

pub temp-injective : (m n : ℕ) → temp m ≡ temp n → m ≡ n
unfolding temp tail
temp-injective m n h = decimal-injective m n (ap tail h)

-- The name of a value is that of the temporary which its instruction defines, and no temporary's
-- name where it defines none.
abbrev IsNameOf : Option ℕ → Text → Type 0
IsNameOf none name = is_temp_name name ≡ false
IsNameOf (some d) name = name ≡ temp d

lower_instruction-IsNameOf : (i : MirInstruction) → IsNameOf (dest i) (lower_instruction i).name
unfolding lower_instruction dest is_temp_name
lower_instruction-IsNameOf (MirInstruction.select_arm none _ _) = refl
lower_instruction-IsNameOf (MirInstruction.select_arm (some _) _ _) = refl
lower_instruction-IsNameOf _ = refl

-- The names of temporaries among the names of the values, in order.
abbrev pub temp_names : List SsaValue → List Text
temp_names [] = []
temp_names (v ∷ vs) = if is_temp_name v.name then v.name ∷ temp_names vs else temp_names vs

temp_names-dests :
    (is : List MirInstruction) → temp_names (map lower_instruction is) ≡ map temp (dests is)
temp_names-dests [] = refl
temp_names-dests (i ∷ is) = go (dest i) refl (lower_instruction-IsNameOf i) (temp_names-dests is)
  where
    go :
        (o : Option ℕ)
        → dest i ≡ o
        → IsNameOf o (lower_instruction i).name
        → temp_names (map lower_instruction is) ≡ map temp (dests is)
        → temp_names (map lower_instruction (i ∷ is)) ≡ map temp (dests (i ∷ is))
    go none e h ih = rw (h, e) ih
    go (some d) e h ih = rw (h, is_temp_name-temp d, e) (ap (◌∷◌ (temp d)) ih)

mem-range_from : (m n k : ℕ) → Mem (temp m) (map temp (range_from n k)) → n ≤ m
mem-range_from m n zero h = absurd (not-mem-nil h)
mem-range_from m n (suc k) h =
    Or.elim le_prop (mem-cons.0 h) (λ e. omega (arith, temp-injective m n e))
      (λ later. omega (arith, mem-range_from m (n + 1) k later))

Nodup-range_from : (n k : ℕ) → Nodup (map temp (range_from n k))
Nodup-range_from n zero = Nodup-nil
Nodup-range_from n (suc k) =
    Nodup-cons.1
      ((λ h. absurd (omega (arith, mem-range_from n (n + 1) k h))), Nodup-range_from (n + 1) k)

-- In the named form of every function that was lowered from a typed one, the values with a
-- temporary's name are `%0`, `%1` and so on, in this order, and no two of them have one name.
pub lower_function-single_assignment :
    (f : TypedFunction)
    → (n : ℕ) × (temp_names (lower_function (Builder.lower_function f)).values
        ≡ map temp (range_from 0 n))
      × Nodup (temp_names (lower_function (Builder.lower_function f)).values)
unfolding lower_function
lower_function-single_assignment f =
    let is = (Builder.lower_function f).instructions in
    let n = length (dests is) in
    let names = temp_names-dests is ∙ ap (map temp) (lower_function-AreNumbered f).0 in
    (n, names, subst Nodup (sym names) (Nodup-range_from 0 n))
