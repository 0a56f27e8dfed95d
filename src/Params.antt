-- ===== src/Params.antt =====
-- Parameters of a volume: merging, extraction, and the config text that is generated from them
-- (pkg/rclone/nodeserver.go and utils.go).
pub mod Merge
pub mod Extract
pub mod Options
pub mod Ini
use csi_driver_rclone.Prelude.{
  Bool, true, false, ◌||◌, ◌&&◌, not, List, [], ◌∷◌, ◌++◌, Result, ok, err, ◌>>=◌, ◌>>◌, fail_if,
  if◌then◌else◌, ltb, length,
}
use csi_driver_rclone.Text.{
  Text, codes, text_eq, is_empty, to_lower, has_prefix, contains, split_n2,
}
use csi_driver_rclone.GoMap.{GoMap, Params, get, put, put_all, value}
use csi_driver_rclone.Status.{Status, error, invalid_argument, Reply}
use csi_driver_rclone.Flags.{normalize_rclone_flag, sanitize_flag}

abbrev pub param_remote : Text
param_remote = codes "remote"

abbrev pub param_remote_path : Text
param_remote_path = codes "remotePath"

abbrev pub param_config_data : Text
param_config_data = codes "configData"

abbrev pub param_backend_type : Text
param_backend_type = codes "remoteType"

-- `reservedParams[k]`
unfoldable pub reserved_params : Text → Bool
unfolding text_eq
reserved_params k =
    text_eq k param_remote
    || text_eq k param_remote_path
    || text_eq k param_config_data
    || text_eq k param_backend_type

-- `mergeCopy`, at the type that its caller uses
unfoldable pub merge_copy {ℓ} : {V : Type ℓ} → GoMap V → GoMap V → GoMap V
unfolding put_all
merge_copy m1 m2 = put_all (put_all [] m1) m2

-- The two maps of a NodePublishVolumeRequest; a nil map is an empty one.
unfoldable pub merge_volume_parameters : Params → Params → Params
unfolding put_all
merge_volume_parameters secrets volume_context = put_all (put_all [] secrets) volume_context

pub record PublishVolumeParams : Type 0 where
  pub remote_name : Text
  pub remote_path : Text
  pub config_data : Text
  pub remote_type : Text
  pub params : Params

-- The loop that copies all but the reserved parameters, under their normalised names.
unfoldable pub copy_params : Params → Params → Reply Params
unfolding reserved_params
copy_params [] copied = ok copied
copy_params ((k, v) ∷ params) copied = elim (reserved_params k) [
  | true ↦ copy_params params copied
  | false ↦ elim (is_empty (normalize_rclone_flag k)) [
    | true ↦ err (error invalid_argument (codes "invalid parameter name: " ++ k))
    | false ↦ copy_params params (put copied (normalize_rclone_flag k) v)
  ]
]

unfoldable pub extract_publish_params : Params → Reply PublishVolumeParams
unfolding copy_params
extract_publish_params params = do
  let remote_name = value params param_remote
  let config_data = value params param_config_data
  let remote_type = value params param_backend_type
  fail_if (is_empty remote_name) (
      error invalid_argument (codes "remote is required (provide via volumeAttributes or secrets)"))
  fail_if (is_empty config_data && is_empty remote_type)
      (error invalid_argument (codes "either configData or remoteType must be provided"))
  copied ← copy_params params []
  ok (record {
    remote_name = remote_name;
    remote_path = value params param_remote_path;
    config_data = config_data;
    remote_type = remote_type;
    params = copied;
  })

-- The loop of `extractRemoteTypeParams`.
unfoldable pub collect_type_params : Params → Text → Params → Params
collect_type_params [] remote_type rc_params = rc_params
collect_type_params ((k, v) ∷ params) remote_type rc_params =
    collect_type_params params remote_type (
      if has_prefix (to_lower k) (to_lower remote_type)
      then put rc_params (sanitize_flag remote_type k) v
      else rc_params)

unfoldable pub extract_remote_type_params : Params → Text → Params
unfolding collect_type_params
extract_remote_type_params params remote_type = collect_type_params params remote_type []

abbrev pub newline : Text
newline = codes "\n"

unfoldable pub config_lines : Params → Text
config_lines [] = []
config_lines ((k, v) ∷ params) = k ++ (codes " = " ++ (v ++ (newline ++ config_lines params)))

-- `generateRecloneConfigFromParams`
unfoldable pub generate_reclone_config_from_params : Params → Text → Text → Text
unfolding config_lines
generate_reclone_config_from_params params remote_type remote_name =
    codes "["
    ++ (remote_name
        ++ (codes "]\n" ++ (codes "type = " ++ (remote_type ++ (newline ++ config_lines params)))))

-- The config text that a request without one gets from its parameters.
unfoldable pub generated : PublishVolumeParams → Params → PublishVolumeParams
generated pvp remote_params =
    if ltb 0 (length remote_params)
    then record pvp {
      config_data =
          generate_reclone_config_from_params remote_params pvp.remote_type pvp.remote_name;
    }
    else pvp

unfoldable pub generate_config_data : PublishVolumeParams → Reply PublishVolumeParams
unfolding generated
generate_config_data pvp = do
  let filled =
      if is_empty pvp.config_data && not (is_empty pvp.remote_type)
      then generated pvp (extract_remote_type_params pvp.params pvp.remote_type)
      else pvp
  fail_if (is_empty filled.config_data)
      (error invalid_argument (codes "failed to parse configData"))
  ok filled

unfoldable pub build_fs_path : Text → Text → Text
build_fs_path remote_name remote_path =
    if not (is_empty remote_path)
    then remote_name ++ (codes ":" ++ remote_path)
    else remote_name ++ codes ":"

-- One mount option of the form `key=value`, cut at the first `=`.
unfoldable pub set_pair : List Text → Text → Params → Result Text Params
set_pair (key ∷ val ∷ []) option options = ok (put options (normalize_rclone_flag key) val)
set_pair _ option options = err (codes "invalid mount option format: " ++ option)

unfoldable pub set_option : Text → Params → Result Text Params
unfolding set_pair
set_option option options =
    if contains option (codes "=")
    then set_pair (split_n2 option (codes "=")) option options
    else ok (put options (normalize_rclone_flag option) (codes "true"))

unfoldable pub set_options : List Text → Params → Result Text Params
unfolding set_option
set_options [] options = ok options
set_options (option ∷ rest) options = do
  options' ← set_option option options
  set_options rest options'

unfoldable pub extract_volume_mount_options : List Text → Result Text Params
unfolding set_options
extract_volume_mount_options mount_options = set_options mount_options []
