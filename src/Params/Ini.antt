-- ===== src/Params/Ini.antt =====
-- The config text that is generated, line by line, and the path of the file system.
use csi_driver_rclone.Prelude.{
  ◌≡◌, refl, arith, [], ◌∷◌, ◌++◌, some, ok, All, All-append, append_assoc, map,
}
use csi_driver_rclone.Text.{Text, codes, split, cut_at}
use csi_driver_rclone.Text.Pieces.{Lacks, split-append, cut_at-append}
use csi_driver_rclone.GoMap.{Params}
use csi_driver_rclone.Params.{
  generate_reclone_config_from_params, config_lines, newline, build_fs_path, PublishVolumeParams,
  generate_config_data, generated,
}

-- `key = value`
abbrev pub entry_line : Text × Text → Text
entry_line (k, v) = k ++ (codes " = " ++ v)

-- No line break in a key or a value.
abbrev pub OneLine : Text × Text → Type 0
OneLine (k, v) = Lacks b'\n' k × Lacks b'\n' v

entry_line-Lacks : (e : Text × Text) → OneLine e → Lacks b'\n' (entry_line e)
entry_line-Lacks (k, v) (hk, hv) =
    All-append _ k (codes " = " ++ v) hk (All-append _ (codes " = ") v (omega arith) hv)

line_regroup :
    (a b rest : Text)
    → a ++ (codes " = " ++ (b ++ (newline ++ rest))) ≡ entry_line (a, b) ++ b'\n' ∷ rest
line_regroup a b rest = simp append_assoc

split-config_lines :
    (params : Params)
    → All OneLine params
    → split (config_lines params) b'\n' ≡ map entry_line params ++ [] ∷ []
unfolding config_lines
split-config_lines [] h = unfold split in refl
split-config_lines ((k, v) ∷ params) (h, hs) = rw (
  line_regroup k v (config_lines params),
  split-append b'\n' (entry_line (k, v)) (config_lines params) (entry_line-Lacks (k, v) h),
  split-config_lines params hs,
)

-- `[name]`
abbrev pub header_line : Text → Text
header_line name = codes "[" ++ (name ++ codes "]")

header_line-Lacks : (name : Text) → Lacks b'\n' name → Lacks b'\n' (header_line name)
header_line-Lacks name h = (omega arith, All-append _ name (codes "]") h (omega arith))

type_line-Lacks : (type : Text) → Lacks b'\n' type → Lacks b'\n' (codes "type = " ++ type)
type_line-Lacks type h = All-append _ (codes "type = ") type (omega arith) h

generate_regroup :
    (params : Params) (type name : Text)
    → generate_reclone_config_from_params params type name
      ≡ header_line name ++ b'\n' ∷ ((codes "type = " ++ type) ++ b'\n' ∷ config_lines params)
unfolding generate_reclone_config_from_params
generate_regroup params type name = simp append_assoc

-- Where no name, type, key or value holds a line break, the lines of the generated config are the
-- section header, the type, and one `key = value` for each parameter in the order of iteration.
pub split-generate :
    (params : Params) (type name : Text)
    → Lacks b'\n' name
    → Lacks b'\n' type
    → All OneLine params
    → split (generate_reclone_config_from_params params type name) b'\n'
      ≡ header_line name ∷ (codes "type = " ++ type) ∷ (map entry_line params ++ [] ∷ [])
split-generate params type name hn ht h = rw (
  generate_regroup params type name,
  split-append b'\n' (header_line name) _ (header_line-Lacks name hn),
  split-append b'\n' (codes "type = " ++ type) _ (type_line-Lacks type ht),
  split-config_lines params h,
)

-- For a remote name without a colon, the remote and the path are read back from the path of the file
-- system by cutting it at the first colon, whether the path is empty or not.
pub cut_at-build_fs_path :
    (remote_name remote_path : Text)
    → Lacks b':' remote_name
    → cut_at (build_fs_path remote_name remote_path) (codes ":") ≡ some (remote_name, remote_path)
unfolding build_fs_path
cut_at-build_fs_path name [] h = cut_at-append b':' name [] h
cut_at-build_fs_path name (c ∷ path) h = cut_at-append b':' name (c ∷ path) h

-- Filling the config in changes neither the remote nor the path.
pub generate_config_data-remote :
    (pvp : PublishVolumeParams) {filled : PublishVolumeParams}
    → generate_config_data pvp ≡ ok filled
    → (filled.remote_name ≡ pvp.remote_name) × (filled.remote_path ≡ pvp.remote_path)
unfolding generate_config_data generated
generate_config_data-remote pvp e = ground arith
