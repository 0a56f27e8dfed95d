-- ===== src/Prelude/Words.antt =====
-- 64-bit words: the bits of Go's `int`, `int64` and `uint64`, and their wrap-around.
use Prim.Native.Nat.{ℕ, ◌+◌, ◌-◌, ◌*◌, ◌%◌, ◌<◌, ◌≤◌}
use mathlib.Core.Path.{◌≡◌}
use native.Mathlib.Omega.{arith}
use csi_driver_rclone.Prelude.Tests.{ltb, if◌then◌else◌}
use csi_driver_rclone.Prelude.Int.{ℤ, pos, negsuc}

-- 2 ^ 64 and 2 ^ 63
abbrev pub word : ℕ
word = 18446744073709551616

abbrev pub half_word : ℕ
half_word = 9223372036854775808

-- The `int64` with the bits of a word.
unfoldable pub int64_of : ℕ → ℤ
int64_of w = if ltb w half_word then pos w else negsuc (word - 1 - w)

-- The bits of a sum, a product and a difference of two words.
unfoldable pub add_word : ℕ → ℕ → ℕ
add_word a b = (a + b) % word

unfoldable pub mul_word : ℕ → ℕ → ℕ
mul_word a b = (a * b) % word

unfoldable pub sub_word : ℕ → ℕ → ℕ
sub_word a b = (a + (word - b)) % word

pub int64_of_small : (n : ℕ) → n < half_word → int64_of n ≡ pos n
unfolding int64_of
int64_of_small n h = ground arith

pub sub_word_small : (a b : ℕ) → a < half_word → b ≤ a → sub_word a b ≡ a - b
unfolding sub_word
sub_word_small a b h g = omega arith

pub mod_word_small : (a : ℕ) → a < half_word → a % word ≡ a
mod_word_small a h = omega arith
