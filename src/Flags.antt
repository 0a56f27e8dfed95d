-- ===== src/Flags.antt =====
-- Flag names (pkg/rclone/utils.go): `normalizeRcloneFlag`, `sanitizeFlag` and their helper.
pub mod Laws
use csi_driver_rclone.Prelude.{ℕ, [], ◌∷◌, ◌++◌, ltb, if◌then◌else◌, length, Bool}
use csi_driver_rclone.Text.{
  Text, codes, is_empty, to_lower, equal_fold, trim_prefix, replace_all, take, drop,
}

abbrev pub flag_prefix_separator : Text
flag_prefix_separator = codes "_"

abbrev pub flag_long_prefix : Text
flag_long_prefix = codes "--"

abbrev pub flag_hyphen : Text
flag_hyphen = codes "-"

abbrev pub flag_underscore : Text
flag_underscore = codes "_"

unfoldable pub normalize_rclone_flag : Text → Text
normalize_rclone_flag key =
    if is_empty key
    then key
    else to_lower (replace_all (trim_prefix key flag_long_prefix) flag_hyphen flag_underscore)

unfoldable pub remove_prefix_case_insensitive : Text → Text → Text
remove_prefix_case_insensitive s prefix =
    if ltb (length s) (length prefix)
    then s
    else if equal_fold (take (length prefix) s) prefix
    then drop (length prefix) s
    else s

unfoldable pub sanitize_flag : Text → Text → Text
sanitize_flag remote key =
    if is_empty key
    then key
    else if is_empty remote
    then normalize_rclone_flag key
    else normalize_rclone_flag (
        remove_prefix_case_insensitive (normalize_rclone_flag key)
          (remote ++ flag_prefix_separator))
