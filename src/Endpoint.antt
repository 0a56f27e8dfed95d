-- ===== src/Endpoint.antt =====
-- `ParseEndpoint` (pkg/rclone/utils.go).
use csi_driver_rclone.Prelude.{
  ℕ, ◌≡◌, refl, ◌||◌, List, ◌∷◌, ◌++◌, Result, ok, err, if◌then◌else◌, not,
}
use csi_driver_rclone.Text.{
  Text, codes, is_empty, to_lower, has_prefix, split_n2, to_lower_rune, cut_at, push_first, drop,
}

-- The part of `ParseEndpoint` behind the test of the two schemes: `s[1] != ""`.
unfoldable pub scheme_parts : List Text → Result Text (Text × Text) → Result Text (Text × Text)
scheme_parts (proto ∷ addr ∷ _) other = if not (is_empty addr) then ok (proto, addr) else other
scheme_parts _ other = other

unfoldable pub bare_path : Text → Result Text (Text × Text)
bare_path ep =
    if has_prefix ep (codes "/")
    then ok (codes "unix", ep)
    else err (codes "invalid endpoint: " ++ ep)

unfoldable pub parse_endpoint : Text → Result Text (Text × Text)
unfolding scheme_parts bare_path
parse_endpoint ep =
    if has_prefix (to_lower ep) (codes "unix://") || has_prefix (to_lower ep) (codes "tcp://")
    then scheme_parts (split_n2 ep (codes "://")) (bare_path ep)
    else bare_path ep

-- The two schemes that are tested for.
pub data Scheme : Type 0 where
  unix tcp : Scheme

abbrev pub scheme_name : Scheme → Text
scheme_name unix = codes "unix"
scheme_name tcp = codes "tcp"

-- An endpoint written as `unix://` or `tcp://` before an address that is not empty is taken apart
-- into that scheme and that address, whatever the address holds.
pub parse_endpoint-scheme :
    (scheme : Scheme) (c : ℕ) (addr : Text)
    → parse_endpoint (scheme_name scheme ++ (codes "://" ++ c ∷ addr))
      ≡ ok (scheme_name scheme, c ∷ addr)
unfolding parse_endpoint scheme_parts has_prefix to_lower to_lower_rune split_n2 cut_at push_first
    drop
parse_endpoint-scheme unix c addr = refl
parse_endpoint-scheme tcp c addr = refl
