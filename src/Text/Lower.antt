-- ===== src/Text/Lower.antt =====
-- `strings.ToLower` leaves no capital letter, and is idempotent.
use csi_driver_rclone.Prelude.{ℕ, ◌≡◌, ◌<◌, ◌⊎◌, refl, [], ◌∷◌, ◌++◌, arith, All}
use csi_driver_rclone.Text.{Text, to_lower, to_lower_rune}

-- not one of `A` to `Z`
abbrev pub IsLower : ℕ → Type 0
IsLower c = (c < b'A') ⊎ (b'Z' < c)

pub to_lower_rune-IsLower : (c : ℕ) → IsLower (to_lower_rune c)
unfolding to_lower_rune
to_lower_rune-IsLower c = ground arith

pub to_lower_rune_self : (c : ℕ) → IsLower c → to_lower_rune c ≡ c
unfolding to_lower_rune
to_lower_rune_self c h = ground arith

pub to_lower-IsLower : (s : Text) → All IsLower (to_lower s)
unfolding to_lower
to_lower-IsLower [] = tt
to_lower-IsLower (c ∷ s) = (to_lower_rune-IsLower c, to_lower-IsLower s)

pub to_lower_self : (s : Text) → All IsLower s → to_lower s ≡ s
unfolding to_lower
to_lower_self [] h = refl
to_lower_self (c ∷ s) (hc, hs) = ground (arith, to_lower_rune_self c hc, to_lower_self s hs)

pub to_lower-append : (s t : Text) → to_lower (s ++ t) ≡ to_lower s ++ to_lower t
unfolding to_lower
to_lower-append [] t = refl
to_lower-append (c ∷ s) t = ground (arith, to_lower-append s t)
