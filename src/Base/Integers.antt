-- ===== src/Base/Integers.antt =====
-- A signed `i64`, where the source tests for one below zero.
use Prim.Native.Nat.{ℕ}
use mathlib.Core.Bool.{Bool, true, false}
use tasktips_cloud.Base.Tests.{ltb}

pub data ℤ : Type 0 where
  pos : ℕ → ℤ
  -- `negsuc n` is `- (n + 1)`.
  negsuc : ℕ → ℤ

-- `i < n` and `n < i` for an `n` that is not negative.
abbrev pub below : ℤ → ℕ → Bool
below (pos m) n = ltb m n
below (negsuc m) n = true

abbrev pub above : ℤ → ℕ → Bool
above (pos m) n = ltb n m
above (negsuc m) n = false

-- The value of one that is not negative.
abbrev pub to_natural : ℤ → ℕ
to_natural (pos n) = n
to_natural (negsuc n) = 0
