-- ===== src/Text/Pieces.antt =====
-- Prefixes, cutting at a separator, and splitting.
use csi_driver_rclone.Prelude.{
  ℕ, ◌≡◌, ◌≢◌, refl, true, none, some, [], ◌∷◌, ◌++◌, arith, length, All,
}
use csi_driver_rclone.Text.{Text, has_prefix, drop, split, push, push_first, cut_at}

abbrev pub Lacks : ℕ → Text → Type 0
Lacks b = All (λ c. c ≢ b)

pub has_prefix-append : (p s : Text) → has_prefix (p ++ s) p ≡ true
unfolding has_prefix
has_prefix-append [] s = refl
has_prefix-append (c ∷ p) s = ground (arith, has_prefix-append p s)

pub drop-append : (p s : Text) → drop (length p) (p ++ s) ≡ s
unfolding drop
drop-append [] s = refl
drop-append (c ∷ p) s = drop-append p s

pub has_prefix-drop : (s p : Text) → has_prefix s p ≡ true → s ≡ p ++ drop (length p) s
unfolding has_prefix drop
has_prefix-drop s [] h = refl
has_prefix-drop [] (d ∷ p) h = cc
has_prefix-drop (c ∷ s) (d ∷ p) h = ground (arith, has_prefix-drop s p)

-- A separator of one character is found at its first place.
pub cut_at-append :
    (b : ℕ) (a rest : Text) → Lacks b a → cut_at (a ++ b ∷ rest) (b ∷ []) ≡ some (a, rest)
unfolding cut_at has_prefix drop push_first
cut_at-append b [] rest h = ground arith
cut_at-append b (c ∷ a) rest (hc, h) = ground (arith, cut_at-append b a rest h)

pub cut_at-Lacks : (b : ℕ) (a : Text) → Lacks b a → cut_at a (b ∷ []) ≡ none
unfolding cut_at has_prefix drop push_first
cut_at-Lacks b [] h = refl
cut_at-Lacks b (c ∷ a) (hc, h) = ground (arith, cut_at-Lacks b a h)

pub split-append :
    (sep : ℕ) (a rest : Text) → Lacks sep a → split (a ++ sep ∷ rest) sep ≡ a ∷ split rest sep
unfolding split push
split-append sep [] rest h = ground arith
split-append sep (c ∷ a) rest (hc, h) = ground (arith, split-append sep a rest h)

pub split-Lacks : (sep : ℕ) (a : Text) → Lacks sep a → split a sep ≡ a ∷ []
unfolding split push
split-Lacks sep [] h = refl
split-Lacks sep (c ∷ a) (hc, h) = ground (arith, split-Lacks sep a h)
