-- ===== src/Prelude/Int.antt =====
-- Signed integers over the native numbers, and the wrap-around of Go's `int64`.
use Prim.Native.Nat.{ℕ, suc, ◌+◌, ◌-◌}
use mathlib.Core.Bool.{Bool, true, false}
use csi_driver_rclone.Prelude.Tests.{ltb, leb, if◌then◌else◌}

-- `negsuc n` is -(n + 1).
pub data ℤ : Type 0 where
  pos : ℕ → ℤ
  negsuc : ℕ → ℤ

abbrev pub is_negative : ℤ → Bool
is_negative (pos n) = false
is_negative (negsuc n) = true

abbrev pub is_positive : ℤ → Bool
is_positive (pos n) = ltb 0 n
is_positive (negsuc n) = false

abbrev pub neg : ℕ → ℤ
neg n = if leb n 0 then pos 0 else negsuc (n - 1)

-- The tests `a >= b` of the program.
abbrev pub geb : ℤ → ℤ → Bool
geb (pos a) (pos b) = leb b a
geb (pos a) (negsuc b) = true
geb (negsuc a) (pos b) = false
geb (negsuc a) (negsuc b) = leb a b

abbrev pub sub_ℕ : ℕ → ℕ → ℤ
sub_ℕ a b = if leb b a then pos (a - b) else negsuc (b - a - 1)

infixl 65 ◌+ℤ◌
abbrev pub ◌+ℤ◌ : ℤ → ℤ → ℤ
pos a +ℤ pos b = pos (a + b)
pos a +ℤ negsuc b = sub_ℕ a (suc b)
negsuc a +ℤ pos b = sub_ℕ b (suc a)
negsuc a +ℤ negsuc b = negsuc (suc (a + b))
