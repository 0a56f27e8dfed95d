-- ===== src/Params/Options.antt =====
-- `extractVolumeMountOptions` never fails, and reads each option at its first `=`.
use csi_driver_rclone.Prelude.{
  ◌≡◌, refl, arith, [], ◌∷◌, Option, none, some, List, true, false, Bool, ok,
}
use csi_driver_rclone.Text.{Text, codes, contains, split_n2, cut_at, has_prefix, push_first}
use csi_driver_rclone.GoMap.{Params, put}
use csi_driver_rclone.Flags.{normalize_rclone_flag}
use csi_driver_rclone.Params.{set_option, set_options, extract_volume_mount_options}

-- The name and the value that one option stands for.
abbrev pub pair_of : Option (Text × Text) → Text → Text × Text
pair_of none option = (option, codes "true")
pair_of (some (key, val)) option = (key, val)

abbrev pub put_pair : Params → Text × Text → Params
put_pair options (key, val) = put options (normalize_rclone_flag key) val

-- The options one after another, with no case for an error.
pub put_options : List Text → Params → Params
put_options [] options = options
put_options (option ∷ rest) options =
    put_options rest (put_pair options (pair_of (cut_at option (codes "=")) option))

contains-cut_at : (s : Text) → contains s (codes "=") ≡ false → cut_at s (codes "=") ≡ none
unfolding contains cut_at
contains-cut_at [] h = refl
contains-cut_at (c ∷ s) h = ground (arith, contains-cut_at s)

abbrev is_some {ℓ} : {A : Type ℓ} → Option A → Bool
is_some none = false
is_some (some a) = true

contains-is_some : (s : Text) → contains s (codes "=") ≡ is_some (cut_at s (codes "="))
unfolding contains cut_at has_prefix push_first
contains-is_some [] = refl
contains-is_some (c ∷ s) = ground (arith, contains-is_some s)

set_option_lem :
    (option : Text) (options : Params)
    → set_option option options ≡ ok (put_pair options (pair_of (cut_at option (codes "=")) option))
unfolding set_option split_n2
set_option_lem option options = ground (arith, contains-is_some option)

set_options_lem :
    (mount_options : List Text) (options : Params)
    → set_options mount_options options ≡ ok (put_options mount_options options)
unfolding set_options put_options
set_options_lem [] options = refl
set_options_lem (option ∷ rest) options =
    rw (set_option_lem option options) (set_options_lem rest _)

-- Every list of mount options is read without an error: an option with `=` sets its normalised name
-- to what follows the first `=`, any other sets its normalised name to "true", later ones override.
pub extract_volume_mount_options_lem :
    (mount_options : List Text)
    → extract_volume_mount_options mount_options ≡ ok (put_options mount_options [])
unfolding extract_volume_mount_options
extract_volume_mount_options_lem mount_options = set_options_lem mount_options []
