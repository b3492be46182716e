-- ===== src/Prelude/Int.antt =====
-- Go's `int` where the program looks at its sign or prints it: `negsuc n` is -(n + 1). No arithmetic
-- that could overflow is done on these.
use Prim.Native.Nat.{ℕ}

pub data ℤ : Type 0 where
  pos : ℕ → ℤ
  negsuc : ℕ → ℤ
