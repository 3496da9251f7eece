-- ===== src/Prelude/Int.antt =====
-- Signed integers over the native numbers, as `int64_t` values are used: sign and size.
use Prim.Native.Nat.{ℕ, ◌<◌, ◌^◌}

-- `negsuc n` is -(n + 1).
pub data ℤ : Type 0 where
  pos : ℕ → ℤ
  negsuc : ℕ → ℤ

-- The range of `int64_t`.
abbrev pub IsInt64 : ℤ → Type 0
IsInt64 (pos n) = n < 2 ^ 63
IsInt64 (negsuc n) = n < 2 ^ 63
