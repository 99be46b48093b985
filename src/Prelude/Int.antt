-- ===== src/Prelude/Int.antt =====
-- Signed 64-bit values as they come out of a column, and the cast `as u64`.
use Prim.Native.Nat.{ℕ, ◌-◌, ◌^◌}

-- `negsuc n` is -(n + 1).
pub data ℤ : Type 0 where
  pos : ℕ → ℤ
  negsuc : ℕ → ℤ

-- `v as u64` for `v : i64`: two's complement.
abbrev pub as_u64 : ℤ → ℕ
as_u64 (pos n) = n
as_u64 (negsuc n) = 2 ^ 64 - 1 - n
