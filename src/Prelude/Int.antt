-- ===== src/Prelude/Int.antt =====
-- Signed integers, for indices and descriptors of which -1 is a value. `negsuc n` is -(n + 1).
use Prim.Native.Nat.{ℕ}

pub data ℤ : Type 0 where
  pos : ℕ → ℤ
  negsuc : ℕ → ℤ
