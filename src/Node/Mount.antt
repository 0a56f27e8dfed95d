-- ===== src/Node/Mount.antt =====
-- `createAndMountFilesystem` and the options that it reads.
pub mod Options
pub mod Laws
use csi_driver_rclone.Prelude.{
  ℕ, Bool, true, not, Option, none, some, List, Result, ok, err, [], ◌∷◌, ◌++◌, if◌then◌else◌,
  length, is_positive,
}
use csi_driver_rclone.Text.{Text, codes, is_empty}
use csi_driver_rclone.GoMap.{Params}
use csi_driver_rclone.Status.{Status, internal, invalid_argument, unknown}
use csi_driver_rclone.Params.{merge_copy, extract_volume_mount_options}
use csi_driver_rclone.Node.Calls.{
  Env, MountOptions, VfsOptions, ConfigInfo, MountPoint, Mounted, set_cache_dir, set_temp_dir,
  set_debug_level, reload, pass_config_key, new_fs, mount, register, unregister, signal_daemon,
  wait_mount_ready, cancel,
}
use csi_driver_rclone.Node.Monad.{
  M, ◌>>=◌, ◌>>◌, pure, lift, perform, tell, wrapped, ignored, or_clean,
}
use Options.{
  config_info, extract_mount_options, extract_vfs_options, resolve_mount_method, param_cache_dir,
  param_tmp_dir, param_log_level,
}
use csi_driver_rclone.GoMap.{get}

-- `if v, ok := params[name]; ok { … }`
abbrev if_given : {E : Type 0} → Option Text → (Text → M E Unit) → M E Unit
if_given none f = pure tt
if_given (some v) f = f v

-- `setRcloneConfigFlags`; any log level that is given sets the debug level first.
unfoldable pub set_rclone_config_flags : Env → Params → M Status ConfigInfo
unfolding perform tell get
set_rclone_config_flags env params = do
  if_given (get params param_cache_dir) (λ dir.
      wrapped internal (codes "failed to set cache directory: ")
        (perform (set_cache_dir dir) (λ t. env.on_set_cache_dir t dir)))
  if_given (get params param_tmp_dir) (λ dir.
      wrapped internal (codes "failed to set temp directory: ")
        (perform (set_temp_dir dir) (λ t. env.on_set_temp_dir t dir)))
  if_given (get params param_log_level) (λ level. tell set_debug_level)
  let ci = config_info env params
  wrapped unknown (codes "failed to update global config: ") (lift (env.accepts_config ci.options))
  wrapped unknown (codes "failed to reload config changes: ")
      (perform reload (λ t. env.on_reload t ci))
  pure ci

-- The wait for a daemon. When it times out the daemon is sent an interrupt and the context cancelled.
-- Without a daemon the code panics where it signals the process, which is nil: only the deferred calls
-- are made, and the error stands for the panic.
unfoldable pub wait_for_daemon : Env → Text → MountOptions → ℕ → Bool → M Status Unit
unfolding perform tell
wait_for_daemon env target opts ctx daemon = do
  tell register
  or_clean
      (wrapped internal (codes "failed to wait for mount: ") (
        perform (wait_mount_ready target) (λ t. env.on_wait_mount_ready t target opts.daemon_wait)))
      (do
        if daemon
            then (do
              ignored (perform signal_daemon (λ t. env.on_signal_daemon t))
              tell (cancel ctx))
            else pure tt
        tell unregister)
  tell unregister

unfoldable pub handle_rclone_daemon : Env → Text → MountOptions → ℕ → Bool → M Status Unit
unfolding wait_for_daemon tell
handle_rclone_daemon env target opts ctx daemon = do
  if opts.daemon then tell pass_config_key else pure tt
  if is_positive opts.daemon_wait then wait_for_daemon env target opts ctx daemon else pure tt

-- `if mountOpts.DeviceName == "" { mountOpts.DeviceName = fsPath }`
abbrev with_device : Text → MountOptions → MountOptions
with_device fs_path opts =
    if is_empty opts.device_name then record opts { device_name = fs_path } else opts

-- What is settled before the mount: the options, with the file system initialised.
pub record MountPlan : Type 0 where
  pub method : Text
  pub mount_opt : MountOptions
  pub vfs_opt : VfsOptions

-- The steps before the mount, in the order of the source.
unfoldable pub plan_mount : Env → Text → List Text → Params → M Status MountPlan
plan_mount env fs_path mount_options params = do
  volume_mount_opts ←
      wrapped internal (codes "failed to parse volume mount options: ")
        (lift (extract_volume_mount_options mount_options))
  let opts = merge_copy params volume_mount_opts
  ci ← set_rclone_config_flags env opts
  wrapped internal (codes "failed to initialize filesystem: ")
      (perform (new_fs fs_path) (λ t. env.on_new_fs t ci fs_path))
  mount_opts ←
      wrapped internal (codes "failed to parse mount options: ")
        (lift (extract_mount_options env opts))
  vfs_opts ←
      wrapped internal (codes "failed to parse VFS options: ") (lift (extract_vfs_options env opts))
  method ←
      wrapped invalid_argument (codes "mount method resolution failed: ")
        (lift (resolve_mount_method env opts))
  pure (record { method = method; mount_opt = with_device fs_path mount_opts; vfs_opt = vfs_opts })

-- `mountPoint.Mount()`; a daemon is start_mount where the options ask for one.
unfoldable pub mount_fs : Env → Text → Text → Text → M Status Mounted
mount_fs env method target fs_path =
    wrapped internal (codes "failed to mount: ")
      (perform (mount method target fs_path) (λ t. env.on_mount t target))

-- Up to the mount.
abbrev pub start_mount : Env → Text → Text → List Text → Params → M Status (MountPlan × Mounted)
start_mount env fs_path target mount_options params = do
  plan ← plan_mount env fs_path mount_options params
  made ← mount_fs env plan.method target fs_path
  pure (plan, made)

-- Each error is returned behind a `cancel()`, but for the panic of a wait without a daemon.
unfoldable pub mount_steps : Env → Text → Text → List Text → Params → ℕ → M Status MountPoint
unfolding tell
mount_steps env fs_path target mount_options params ctx = do
  (plan, made) ← or_clean (start_mount env fs_path target mount_options params) (tell (cancel ctx))
  or_clean (handle_rclone_daemon env target plan.mount_opt ctx made.daemon)
      (if made.daemon then tell (cancel ctx) else pure tt)
  pure (record {
    id = made.id;
    target = target;
    mount_opt = plan.mount_opt;
    vfs_opt = plan.vfs_opt;
    vfs = not made.daemon;
  })

-- The mount point and the number of its context: the number of calls before it was made.
unfoldable pub create_and_mount_filesystem :
    Env → Text → Text → List Text → Params → M Status (MountPoint × ℕ)
create_and_mount_filesystem env fs_path target mount_options params s =
    let ctx = length s.trace in
    (do
      mount_point ← mount_steps env fs_path target mount_options params ctx
      pure (mount_point, ctx))
      s
