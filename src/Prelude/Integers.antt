-- ===== src/Prelude/Integers.antt =====
-- The integers over the native natural numbers: the values of an `int` and of a duration.
use Prim.Native.Nat.{ℕ}

-- `negsuc n` is -(n + 1).
pub data ℤ : Type 0 where
  pos : ℕ → ℤ
  negsuc : ℕ → ℤ
