-- ===== src/Text/Replace.antt =====
-- `strings.ReplaceAll` for an old text of one character, and where nothing matches.
use csi_driver_rclone.Prelude.{ℕ, ◌≡◌, refl, [], ◌∷◌, map, arith, ◌==◌, if◌then◌else◌}
use csi_driver_rclone.Text.{Text, has_prefix, replace_all}
use csi_driver_rclone.Text.Pieces.{Lacks}

abbrev pub swap_rune : ℕ → ℕ → ℕ → ℕ
swap_rune a b c = if c == a then b else c

pub replace_all-rune :
    (s : Text) (a b : ℕ) → replace_all s (a ∷ []) (b ∷ []) ≡ map (swap_rune a b) s
unfolding replace_all has_prefix
replace_all-rune [] a b = refl
replace_all-rune (c ∷ s) a b = ground (arith, replace_all-rune s a b)

-- A text without the first character of `old` stays as it is.
pub replace_all-Lacks : (s old new : Text) (d : ℕ) → Lacks d s → replace_all s (d ∷ old) new ≡ s
unfolding replace_all has_prefix
replace_all-Lacks [] old new d h = refl
replace_all-Lacks (c ∷ s) old new d (hc, h) = ground (arith, replace_all-Lacks s old new d h)
