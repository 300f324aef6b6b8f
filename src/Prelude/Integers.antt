-- ===== src/Prelude/Integers.antt =====
-- Go's signed integers, where the code lets one below 0 in.
use Prim.Native.Nat.{ℕ}

pub data ℤ : Type 0 where
  pos : ℕ → ℤ
  negsuc : ℕ → ℤ
