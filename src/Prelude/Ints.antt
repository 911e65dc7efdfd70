-- ===== src/Prelude/Ints.antt =====
-- Signed integers of the source, which the client only carries.
use Prim.Native.Nat.{ℕ}

-- `negsuc n` is -(n + 1).
pub data ℤ : Type 0 where
  pos : ℕ → ℤ
  negsuc : ℕ → ℤ
