-- ===== src/Node/Mount/Options.antt =====
-- The options of one mount: what goes to rclone's config, to its mount and VFS layers, and the method
-- of mounting. `configstruct.Set` and the tables of options are rclone's, and stand in `Env`.
use csi_driver_rclone.Prelude.{
  Option, none, some, List, Result, ok, err, ◌>>=◌, [], ◌∷◌, ◌++◌, if◌then◌else◌,
}
use csi_driver_rclone.Text.{Text, codes, split}
use csi_driver_rclone.GoMap.{Params, get, put}
use csi_driver_rclone.Node.Calls.{Env, MountOptions, VfsOptions, ConfigInfo}

abbrev pub param_cache_dir : Text
param_cache_dir = codes "cache_dir"

abbrev pub param_tmp_dir : Text
param_tmp_dir = codes "temp_dir"

abbrev pub param_log_level : Text
param_log_level = codes "log_level"

abbrev pub param_mount_type : Text
param_mount_type = codes "mount_type"

abbrev pub param_disabled_features : Text
param_disabled_features = codes "disable"

-- The parameters that are options of rclone's global config.
unfoldable pub global_options : Env → Params → Params → Params
unfolding put
global_options env [] config_map = config_map
global_options env ((key, val) ∷ params) config_map =
    global_options env params
      (if env.is_global_option key then put config_map key val else config_map)

abbrev features : Option Text → Option (List Text)
features none = none
features (some disabled) = some (split disabled b',')

unfoldable pub config_info : Env → Params → ConfigInfo
unfolding global_options get split
config_info env params = record {
  disable_features = features (get params param_disabled_features);
  options = global_options env params [];
}

abbrev set_given : Params → Text → Option Text → Params
set_given m name none = m
set_given m name (some v) = put m name v

-- The loop over a table of options: a default is set first, and a parameter of the same name over it.
unfoldable pub override_options : List Text → (Text → Option Text) → Params → Params → Params
unfolding get put
override_options [] defaults params mutable_map = mutable_map
override_options (name ∷ names) defaults params mutable_map =
    override_options names defaults params
      (set_given (set_given mutable_map name (defaults name)) name (get params name))

abbrev prefixed {ℓ} : {A : Type ℓ} → Text → Result Text A → Result Text A
prefixed prefix (ok a) = ok a
prefixed prefix (err e) = err (prefix ++ e)

unfoldable pub extract_vfs_options : Env → Params → Result Text VfsOptions
unfolding override_options
extract_vfs_options env params = do
  loaded ← prefixed (codes "failed to load VFS options: ") env.load_vfs_options
  prefixed (codes "failed to update VFS options: ") (
      env.set_vfs_options (override_options env.vfs_option_names env.vfs_defaults params []) loaded)

unfoldable pub extract_mount_options : Env → Params → Result Text MountOptions
unfolding override_options
extract_mount_options env params = do
  loaded ← prefixed (codes "failed to load mount options: ") env.load_mount_options
  prefixed (codes "failed to update mount options: ") (
      env.set_mount_options (override_options env.mount_option_names env.mount_defaults params [])
        loaded)

abbrev or_error : Option Text → Text → Result Text Text
or_error (some method) e = ok method
or_error none e = err e

abbrev method_for : Env → Option Text → Result Text Text
method_for env (some mount_type) =
    or_error (env.on_resolve_mount_method mount_type)
      (codes "specified mount type '" ++ (mount_type ++ codes "' not available"))
method_for env none = or_error (env.on_resolve_mount_method []) (codes "no mount methods available")

unfoldable pub resolve_mount_method : Env → Params → Result Text Text
unfolding get
resolve_mount_method env params = method_for env (get params param_mount_type)
