-- ===== src/Prelude/Int.antt =====
-- Signed integers over the native numbers, under the library's names: the values of Go's big.Int
-- and of its signed machine types.
use aa_sdk_go.Prelude.{ℕ, suc}

-- `negsuc n` is -(n + 1).
pub data ℤ : Type 0 where
  pos : ℕ → ℤ
  negsuc : ℕ → ℤ

-- The absolute value, `x.abs` of a big.Int.
abbrev pub nat_abs : ℤ → ℕ
nat_abs (pos n) = n
nat_abs (negsuc n) = suc n
