-- ===== src/Base/Int.antt =====
-- Signed integers, for durations and settings: `negsuc n` is -(n + 1).
use Prim.Native.Nat.{ℕ}

pub data ℤ : Type 0 where
  pos : ℕ → ℤ
  negsuc : ℕ → ℤ

-- The value of a positive integer, and a default where it is zero or negative.
abbrev pub positive_or : ℕ → ℤ → ℕ
positive_or d (pos ℕ.zero) = d
positive_or d (pos (ℕ.suc n)) = ℕ.suc n
positive_or d (negsuc n) = d
