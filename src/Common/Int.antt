-- ===== src/Common/Int.antt =====
-- Signed integers; `negsuc n` is -(n + 1).
use Prim.Native.Nat.{ℕ}
use mathlib.Core.Bool.{Bool, true}
use lokinode.Common.Tests.{◌==◌}

pub data ℤ : Type 0 where
  pos : ℕ → ℤ
  negsuc : ℕ → ℤ

-- `z <= 0`
abbrev pub is_le_zero : ℤ → Bool
is_le_zero (pos n) = n == 0
is_le_zero (negsuc n) = true
