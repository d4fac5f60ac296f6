-- ===== src/Prelude/Int.antt =====
-- Signed machine integers that the program passes on: a number, or `negsuc n` for -(n + 1).
use Prim.Native.Nat.{ℕ}

pub data ℤ : Type 0 where
  pos : ℕ → ℤ
  negsuc : ℕ → ℤ

abbrev pub minus_one : ℤ
minus_one = negsuc 0
