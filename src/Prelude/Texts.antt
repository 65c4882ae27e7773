-- ===== src/Prelude/Texts.antt =====
-- A text is the list of its code points: a Rust `char` is a number below 0x110000, a `str` or
-- `String` is such a list, and its `len` counts the bytes of its UTF-8 form.
use Prim.Native.Nat.{ℕ, ◌+◌}
use Prim.Native.Char.{code}
use Prim.Native.String.{String}
use mathlib.Core.Path.{◌≡◌}
use mathlib.Core.Logic.{◌↔◌}
use mathlib.Core.Bool.{Bool, true, false, ◌&&◌, ◌||◌}
use mathlib.Core.List.{List, [], ◌∷◌}
use native.Mathlib.Omega.{arith}
use gof_lang.Prelude.Tests.{ltb, within, ◌==◌, if◌then◌else◌}
use gof_lang.Prelude.Lists.{drop_while}

abbrev pub Text : Type 0
Text = List ℕ

abbrev pub codes : String → Text
codes String.[] = []
codes (String.◌∷◌ c s) = code c ∷ codes s

-- `==` on two texts.
unfoldable pub text_eq : Text → Text → Bool
text_eq [] [] = true
text_eq (x ∷ xs) (y ∷ ys) = x == y && text_eq xs ys
text_eq _ _ = false

pub text_eq_iff : (a b : Text) → (text_eq a b ≡ true) ↔ (a ≡ b)
unfolding text_eq
text_eq_iff (x ∷ a) (y ∷ b) = ground (arith, text_eq_iff a b)
text_eq_iff _ _ = ground arith

-- The bytes that a code point takes in UTF-8, and `str::len`.
abbrev pub utf8_len : ℕ → ℕ
utf8_len c = if ltb c 0x80 then 1 else if ltb c 0x800 then 2 else if ltb c 0x1_0000 then 3 else 4

abbrev pub byte_len : Text → ℕ
byte_len [] = 0
byte_len (c ∷ cs) = utf8_len c + byte_len cs

-- `char::is_whitespace`: the Unicode property White_Space.
unfoldable pub is_whitespace : ℕ → Bool
is_whitespace c =
    within 0x09 0x0d c
    || c == 0x20
    || c == 0x85
    || c == 0xa0
    || c == 0x1680
    || within 0x2000 0x200a c
    || c == 0x2028
    || c == 0x2029
    || c == 0x202f
    || c == 0x205f
    || c == 0x3000

-- `str::trim_start`. A text is blank after `trim` exactly when it is after `trim_start`.
abbrev pub trim_start : Text → Text
trim_start = drop_while is_whitespace

-- `str::lines`: split at each '\n', less a '\r' before it; what follows the last '\n' is a line
-- only if it is not empty, and keeps its '\r'.
abbrev cons_char : ℕ → List Text → List Text
cons_char c [] = (c ∷ []) ∷ []
cons_char c (l ∷ ls) = (c ∷ l) ∷ ls

unfoldable pub lines : Text → List Text
lines [] = []
lines (c ∷ []) = if c == b'\n' then [] ∷ [] else (c ∷ []) ∷ []
lines (c ∷ d ∷ cs) =
    let rest = lines (d ∷ cs) in
    if c == b'\n' then [] ∷ rest else if c == b'\r' && d == b'\n' then rest else cons_char c rest
