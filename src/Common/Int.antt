-- ===== src/Common/Int.antt =====
-- Go's signed integers: the constructors, and the tests that the program makes of them.
use Prim.Native.Nat.{ℕ}

-- `negsuc n` is -(n + 1).
pub data ℤ : Type 0 where
  pos : ℕ → ℤ
  negsuc : ℕ → ℤ
