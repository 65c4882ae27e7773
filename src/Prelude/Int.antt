-- ===== src/Prelude/Int.antt =====
-- Signed integers over the native numbers, for `i64`; `negsuc n` is -(n + 1).
use Prim.Native.Nat.{ℕ, ◌<◌, ◌^◌}

pub data ℤ : Type 0 where
  pos : ℕ → ℤ
  negsuc : ℕ → ℤ

-- The integers that an `i64` holds.
abbrev pub IsI64 : ℤ → Type 0
IsI64 (pos n) = n < 2 ^ 63
IsI64 (negsuc n) = n < 2 ^ 63
