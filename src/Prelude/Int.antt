-- ===== src/Prelude/Int.antt =====
-- The values of an `int` argument, negative ones included.
use Prim.Native.Nat.{ℕ}

pub data ℤ : Type 0 where
  pos : ℕ → ℤ
  negsuc : ℕ → ℤ
