-- ===== src/Base/Results.antt =====
use Prim.Native.Nat.{ℕ}

-- The results 0, 1 and -1 of the functions that return an `int`.
pub data Ret : Type 0 where
  ret_0 ret_1 ret_minus_1 : Ret

-- An `int`, as a natural number or the number below its negation.
pub data ℤ : Type 0 where
  pos negsuc : ℕ → ℤ
