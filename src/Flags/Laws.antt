-- ===== src/Flags/Laws.antt =====
-- What a normalised flag looks like, and what `sanitizeFlag` takes off.
use csi_driver_rclone.Prelude.{
  ℕ, ◌⊎◌, ◌≡◌, ◌≢◌, refl, true, false, [], ◌∷◌, ◌++◌, map, arith, length, length-append, All,
  append_assoc, ap,
}
use csi_driver_rclone.Text.{
  Text, codes, is_empty, to_lower, to_lower_rune, equal_fold, trim_prefix, has_prefix, take,
}
use csi_driver_rclone.Text.Eq.{text_eq_refl}
use csi_driver_rclone.Text.Lower.{IsLower, to_lower_rune_self, to_lower-append}
use csi_driver_rclone.Text.Pieces.{Lacks, drop-append}
use csi_driver_rclone.Text.Replace.{swap_rune, replace_all-rune}
use csi_driver_rclone.Flags.{
  normalize_rclone_flag, sanitize_flag, remove_prefix_case_insensitive, flag_long_prefix,
}

-- A character of a normalised flag: no capital letter and no hyphen.
abbrev pub IsFlagRune : ℕ → Type 0
IsFlagRune c = IsLower c × (c ≢ b'-')

-- What happens to one character behind the leading dashes.
flag_rune : ℕ → ℕ
flag_rune c = to_lower_rune (swap_rune b'-' b'_' c)

flag_rune-IsFlagRune : (c : ℕ) → IsFlagRune (flag_rune c)
unfolding flag_rune to_lower_rune
flag_rune-IsFlagRune c = ground arith

flag_rune_self : (c : ℕ) → IsFlagRune c → flag_rune c ≡ c
unfolding flag_rune
flag_rune_self c (l, h) = ground (arith, to_lower_rune_self c l)

map-flag_rune : (s : Text) → to_lower (map (swap_rune b'-' b'_') s) ≡ map flag_rune s
unfolding to_lower flag_rune
map-flag_rune [] = refl
map-flag_rune (c ∷ s) = ground (arith, map-flag_rune s)

map-IsFlagRune : (s : Text) → All IsFlagRune (map flag_rune s)
map-IsFlagRune [] = tt
map-IsFlagRune (c ∷ s) = (flag_rune-IsFlagRune c, map-IsFlagRune s)

map-flag_rune_self : (s : Text) → All IsFlagRune s → map flag_rune s ≡ s
map-flag_rune_self [] h = refl
map-flag_rune_self (c ∷ s) (hc, hs) = ground (arith, flag_rune_self c hc, map-flag_rune_self s hs)

-- Normalising is: drop one leading `--`, and then map each character.
normalize-map :
    (key : Text) → normalize_rclone_flag key ≡ map flag_rune (trim_prefix key flag_long_prefix)
unfolding normalize_rclone_flag
normalize-map [] = unfold trim_prefix in refl
normalize-map (c ∷ key) = rw replace_all-rune (map-flag_rune _)

trim_prefix_self : (s : Text) → All IsFlagRune s → trim_prefix s flag_long_prefix ≡ s
unfolding trim_prefix
trim_prefix_self [] h = refl
trim_prefix_self (c ∷ s) ((l, hc), hs) = ground arith

-- A normalised flag holds no capital letter and no hyphen.
pub normalize-IsFlag : (key : Text) → All IsFlagRune (normalize_rclone_flag key)
normalize-IsFlag key = rw normalize-map (map-IsFlagRune _)

-- A flag of that form is left alone.
pub normalize_self : (key : Text) → All IsFlagRune key → normalize_rclone_flag key ≡ key
normalize_self key h = rw (normalize-map, trim_prefix_self key h) (map-flag_rune_self key h)

-- Normalising twice is normalising once, for every flag name.
pub normalize_idem :
    (key : Text) → normalize_rclone_flag (normalize_rclone_flag key) ≡ normalize_rclone_flag key
normalize_idem key = normalize_self _ (normalize-IsFlag key)

map-append_rune : (s t : Text) → map flag_rune (s ++ t) ≡ map flag_rune s ++ map flag_rune t
map-append_rune [] t = refl
map-append_rune (c ∷ s) t = ground (arith, map-append_rune s t)

-- Without a hyphen, normalising a text is putting it in lower case.
map-to_lower : (p : Text) → Lacks b'-' p → map flag_rune p ≡ to_lower p
unfolding flag_rune to_lower
map-to_lower [] h = refl
map-to_lower (c ∷ p) (hc, h) = ground (arith, map-to_lower p h)

length-to_lower : (s : Text) → length (to_lower s) ≡ length s
unfolding to_lower
length-to_lower [] = refl
length-to_lower (c ∷ s) = ground (arith, length-to_lower s)

take-append : (p s : Text) → take (length p) (p ++ s) ≡ p
unfolding take
take-append [] s = refl
take-append (c ∷ p) s = ground (arith, take-append p s)

to_lower_idem : (s : Text) → to_lower (to_lower s) ≡ to_lower s
unfolding to_lower to_lower_rune
to_lower_idem [] = refl
to_lower_idem (c ∷ s) = ground (arith, to_lower_idem s)

-- A text that agrees with the prefix up to case is taken off.
remove-append :
    (p q s : Text)
    → length p ≡ length q
    → equal_fold p q ≡ true
    → remove_prefix_case_insensitive (p ++ s) q ≡ s
unfolding remove_prefix_case_insensitive
remove-append p q s len fold =
    rw (← len, take-append, fold, drop-append) (ground (arith, length-append p s))

-- The separators that normalising makes an underscore.
abbrev pub IsSeparator : ℕ → Type 0
IsSeparator b = (b ≡ b'-') ⊎ (b ≡ b'_')

flag_rune-separator : (b : ℕ) → IsSeparator b → flag_rune b ≡ b'_'
unfolding flag_rune to_lower_rune
flag_rune-separator b h = ground arith

abbrev flagged : Text → ℕ → Text → Text
flagged p b k = p ++ b ∷ k

trim_prefix-flagged :
    (p : Text) (b : ℕ) (k : Text)
    → Lacks b'-' p
    → p ≢ []
    → trim_prefix (flagged p b k) flag_long_prefix ≡ flagged p b k
unfolding trim_prefix
trim_prefix-flagged [] b k h ne = absurd (ne refl)
trim_prefix-flagged (c ∷ p) b k (hc, h) ne = ground arith

normalize-flagged :
    (p : Text) (b : ℕ) (k : Text)
    → Lacks b'-' p
    → p ≢ []
    → IsSeparator b
    → normalize_rclone_flag (flagged p b k) ≡ (to_lower p ++ codes "_") ++ map flag_rune k
normalize-flagged p b k h ne sep = rw (
  normalize-map,
  trim_prefix-flagged p b k h ne,
  map-append_rune,
  map-to_lower p h,
  flag_rune-separator b sep,
  append_assoc,
)

is_empty-append : (p : Text) (b : ℕ) (k : Text) → is_empty (p ++ b ∷ k) ≡ false
is_empty-append [] b k = refl
is_empty-append (c ∷ p) b k = refl

same_length :
    (p remote : Text)
    → to_lower p ≡ to_lower remote
    → length (to_lower p ++ codes "_") ≡ length (remote ++ codes "_")
same_length p remote same = omega (
  arith,
  length-append {0} (to_lower p) (codes "_"),
  length-append {0} remote (codes "_"),
  ap length same,
  length-to_lower p,
  length-to_lower remote,
)

same_fold :
    (p remote : Text)
    → to_lower p ≡ to_lower remote
    → equal_fold (to_lower p ++ codes "_") (remote ++ codes "_") ≡ true
unfolding equal_fold
same_fold p remote same =
    rw (to_lower-append (to_lower p), to_lower-append remote, to_lower_idem, same)
      (text_eq_refl (to_lower remote ++ to_lower (codes "_")))

normalize-map_self :
    (k : Text)
    → has_prefix k flag_long_prefix ≡ false
    → normalize_rclone_flag (map flag_rune k) ≡ normalize_rclone_flag k
unfolding trim_prefix
normalize-map_self k h =
    let e : normalize_rclone_flag k ≡ map flag_rune k = rw (normalize-map, h) in
    rw (← e) (normalize_idem k)

-- For a key that starts with a non-empty prefix without hyphens, equal to the remote's name up to
-- case, then `-` or `_`, and a rest that does not start with `--`: the prefix and the separator are
-- taken off, and what is left is the rest, normalised.
pub sanitize-flagged :
    (remote p k : Text) (b : ℕ)
    → p ≢ []
    → Lacks b'-' p
    → to_lower p ≡ to_lower remote
    → IsSeparator b
    → has_prefix k flag_long_prefix ≡ false
    → sanitize_flag remote (p ++ b ∷ k) ≡ normalize_rclone_flag k
unfolding sanitize_flag
sanitize-flagged [] [] k b ne h same sep plain = absurd (ne refl)
sanitize-flagged [] (c ∷ p) k b ne h same sep plain = absurd (unfold to_lower in cc)
sanitize-flagged (d ∷ remote) p k b ne h same sep plain =
    rw
      (
        is_empty-append p b k,
        normalize-flagged p b k h ne sep,
        remove-append (to_lower p ++ codes "_") ((d ∷ remote) ++ codes "_") (map flag_rune k)
            (same_length p (d ∷ remote) same) (same_fold p (d ∷ remote) same),
      )
      (normalize-map_self k plain)
