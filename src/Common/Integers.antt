-- ===== src/Common/Integers.antt =====
-- Signed integers over the native numbers, as C's `int` results use them.
use Prim.Native.Nat.{ℕ}

-- The library's integers over the native numbers: `negsuc n` is `-(n + 1)`.
pub data ℤ : Type 0 where
  pos : ℕ → ℤ
  negsuc : ℕ → ℤ
