-- ===== src/Prelude/Int.antt =====
-- Signed integers over the native numbers, under the library's names, for the JavaScript numbers
-- and bigints that the code tests for a sign.
use Prim.Native.Nat.{ℕ, ◌-◌}
use mathlib.Core.Bool.{Bool, true, false}
use node_ecies_lib.Prelude.Tests.{ltb, leb, ◌==◌, if◌then◌else◌}

-- `negsuc n` is -(n + 1).
pub data ℤ : Type 0 where
  pos : ℕ → ℤ
  negsuc : ℕ → ℤ

abbrev pub pos_part : ℤ → ℕ
pos_part (pos n) = n
pos_part (negsuc n) = 0

-- z < 0
abbrev pub is_negative : ℤ → Bool
is_negative (pos n) = false
is_negative (negsuc n) = true

-- z === n, for a number that is not negative
abbrev pub eq_ℕ : ℤ → ℕ → Bool
eq_ℕ (pos m) n = m == n
eq_ℕ (negsuc m) n = false

-- z > n, for a number that is not negative
abbrev pub gt_ℕ : ℤ → ℕ → Bool
gt_ℕ (pos m) n = ltb n m
gt_ℕ (negsuc m) n = false

-- a - b
abbrev pub sub_ℕ : ℕ → ℕ → ℤ
sub_ℕ a b = if leb b a then pos (a - b) else negsuc (b - a - 1)
