-- ===== src/Node/Volume.antt =====
-- `NodePublishVolume` and `NodeUnpublishVolume`.
pub mod Publish
pub mod Published
pub mod Unmounted
pub mod Unpublished
pub mod Shared
pub mod Unpublish
pub mod Requests
pub mod Mounts
pub mod Remotes
use csi_driver_rclone.Prelude.{
  ℕ, Bool, true, false, Option, none, some, List, Result, ok, err, [], ◌∷◌, ◌++◌, if◌then◌else◌,
  ltb, length,
}
use csi_driver_rclone.Text.{Text, codes, is_empty}
use csi_driver_rclone.GoMap
use csi_driver_rclone.GoMap.{Params, put}
use csi_driver_rclone.Status.{Status, Reply, error, invalid_argument, internal, aborted}
use csi_driver_rclone.Locks.{VolumeLocks, try_acquire, release, lock_key}
use csi_driver_rclone.Csi.{
  MountVolume, VolumeCapability, get_mount, NodePublishVolumeRequest, NodeUnpublishVolumeRequest,
}
use csi_driver_rclone.Params.{
  PublishVolumeParams, merge_volume_parameters, extract_publish_params, generate_config_data,
  build_fs_path,
}
use csi_driver_rclone.Node.Calls.{
  Env, Node, MountPoint, MountContext, unmount_mount_point, cancel, cleanup_mount_point,
  cleanup_mount_with_force,
}
use csi_driver_rclone.Node.Monad.{
  M, ◌>>=◌, ◌>>◌, pure, raise, lift, perform, tell, wrapped, ignored, or_clean,
}
use csi_driver_rclone.Node.Target.{prepare_target_directory}
use csi_driver_rclone.Node.Config.{load_rclone_config, cleanup_config_remotes, delete_sections}
use csi_driver_rclone.Node.Mount.{create_and_mount_filesystem}
use csi_driver_rclone.Node.Sync.{wait_for_vfs_cache_sync}

abbrev pub param_volume_mount_group : Text
param_volume_mount_group = codes "gid"

abbrev pub param_volume_mount_user : Text
param_volume_mount_user = codes "uid"

abbrev pub param_volume_mount_allow_other : Text
param_volume_mount_allow_other = codes "allow_other"

unfoldable pub get_mount_context : Node → Text → Option MountContext
get_mount_context s target_path = GoMap.get s.mount_context target_path

unfoldable pub set_mount_context : {E : Type 0} → Text → MountContext → M E Unit
set_mount_context target_path mc s =
    (ok tt, record s { mount_context = put s.mount_context target_path mc })

unfoldable pub delete_mount_context : {E : Type 0} → Text → M E Unit
delete_mount_context target_path s =
    (ok tt, record s { mount_context = GoMap.delete s.mount_context target_path })

unfoldable pub validate_publish_volume_request : NodePublishVolumeRequest → Reply VolumeCapability
validate_publish_volume_request req =
    if is_empty req.volume_id
    then err (error invalid_argument (codes "Volume ID missing in request"))
    else if is_empty req.target_path
    then err (error invalid_argument (codes "Target path not provided"))
    else elim req.volume_capability [
      | none ↦ err (error invalid_argument (codes "Volume capability missing in request"))
      | some capability ↦ ok capability
    ]

unfoldable pub validate_unpublish_volume_request : NodeUnpublishVolumeRequest → Reply (Unit {0})
validate_unpublish_volume_request req =
    if is_empty req.volume_id
    then err (error invalid_argument (codes "Volume ID missing in request"))
    else if is_empty req.target_path
    then err (error invalid_argument (codes "Target path missing in request"))
    else ok tt

-- Both handlers take the lock of the volume and the target, and release it by a deferred call.
unfoldable pub with_volume_lock : {A : Type 0} → Text → Text → M Status A → M Status A
unfolding try_acquire release lock_key
with_volume_lock volume_id target_path body s =
    let key = lock_key volume_id target_path in
    let (acquired, vl) = try_acquire s.volume_locks key in
    if acquired
    then (let (r, s') = body (record s { volume_locks = vl }) in
        (r, record s' { volume_locks = release s'.volume_locks key }))
    else (
      err (
          error aborted (
            codes "An operation with the given Volume ID "
            ++ (volume_id ++ codes " already exists"))),
      record s { volume_locks = vl },
    )

abbrev pub mount_options_of : Option MountVolume → Bool → List Text
mount_options_of none read_only = []
mount_options_of (some m) read_only =
    if read_only then m.mount_flags ++ codes "read-only" ∷ [] else m.mount_flags

-- The volume mount group of the request is set over the parameters `gid`, `uid` and `allow_other`.
abbrev pub with_group : Option MountVolume → Params → Params
with_group none params = params
with_group (some m) params =
    if is_empty m.volume_mount_group
    then params
    else put
        (put (put params param_volume_mount_group m.volume_mount_group) param_volume_mount_user
          m.volume_mount_group)
        param_volume_mount_allow_other (codes "true")

-- What is left to do when the config is loaded. The deferred cleanup runs on an error.
unfoldable pub mount_loaded :
    Env → PublishVolumeParams → Text → List Text → List Text → M Status Unit
mount_loaded env pvp target_path mount_options remotes = do
  (mount_point, ctx) ←
      or_clean
        (create_and_mount_filesystem env (build_fs_path pvp.remote_name pvp.remote_path) target_path
          mount_options pvp.params)
        (cleanup_config_remotes remotes)
  set_mount_context target_path (record {
    mount_point = some mount_point;
    remote_name = pvp.remote_name;
    remotes = remotes;
    cancel_func = some ctx;
  })

-- What is left to do when the target is prepared.
unfoldable pub mount_volume : Env → PublishVolumeParams → Text → List Text → M Status Unit
mount_volume env pvp target_path mount_options = do
  filled ← lift (generate_config_data pvp)
  remotes ← load_rclone_config env filled
  mount_loaded env filled target_path mount_options remotes

-- The test behind `prepareTargetDirectory`: an error with an empty text stands for a target that is
-- mounted and accessible.
abbrev pub when_prepared :
    Env → Result Status (Unit {0}) × Node → M Status Unit → Result Status (Unit {0}) × Node
when_prepared env (ok _, s) next = next s
when_prepared env (err e, s) next = if is_empty (env.status_text e) then (ok tt, s) else (err e, s)

unfoldable pub publish_body : Env → NodePublishVolumeRequest → VolumeCapability → M Status Unit
publish_body env req capability = do
  let mount_cap = get_mount capability
  let params = with_group mount_cap (merge_volume_parameters req.secrets req.volume_context)
  pvp ← lift (extract_publish_params params)
  λ s.
      when_prepared env (prepare_target_directory env req.target_path s)
        (mount_volume env pvp req.target_path (mount_options_of mount_cap req.readonly))

unfoldable pub node_publish_volume : Env → NodePublishVolumeRequest → M Status Unit
node_publish_volume env req = do
  capability ← lift (validate_publish_volume_request req)
  with_volume_lock req.volume_id req.target_path (publish_body env req capability)

abbrev pub cancel_given : {E : Type 0} → Option ℕ → M E Unit
cancel_given none = pure tt
cancel_given (some ctx) = tell (cancel ctx)

-- The stats are asked of the mount point's `VFS`. Where that is nil the code panics, which the error
-- stands for: nothing is unmounted, and only the deferred calls are made.
abbrev pub need_vfs : MountPoint → M Text Unit
need_vfs mount_point =
    if mount_point.vfs
    then pure tt
    else raise (codes "runtime error: invalid memory address or nil pointer dereference")

unfoldable pub unmount_point : Env → MountContext → MountPoint → M Text Unit
unmount_point env mc mount_point = do
  need_vfs mount_point
  wait_for_vfs_cache_sync env mount_point
  ignored (
      perform (unmount_mount_point mount_point.id)
        (λ t. env.on_unmount_mount_point t mount_point.id))
  cancel_given mc.cancel_func
  if ltb 0 (length mc.remotes) then delete_sections mc.remotes else pure tt

abbrev pub unmount_context : Env → Option MountContext → Option MountPoint → M Text Unit
unmount_context env (some mc) (some mount_point) = unmount_point env mc mount_point
unmount_context env (some mc) none = pure tt
unmount_context env none _ = pure tt

abbrev pub point_of : Option MountContext → Option MountPoint
point_of none = none
point_of (some mc) = mc.mount_point

unfoldable pub unmount_volume : Env → Option MountContext → Text → M Text Unit
unmount_volume env mc target_path = do
  unmount_context env mc (point_of mc)
  if env.force_unmounter
      then perform (cleanup_mount_with_force target_path 30) (λ t. env.on_cleanup t target_path)
      else perform (cleanup_mount_point target_path) (λ t. env.on_cleanup t target_path)

-- The context of the target is read and unmounted.
unfoldable pub unmount_target : Env → Text → M Status Unit
unmount_target env target_path s =
    wrapped internal (codes "failed to unmount target \"" ++ (target_path ++ codes "\": "))
      (unmount_volume env (get_mount_context s target_path) target_path) s

unfoldable pub unpublish_body : Env → Text → M Status Unit
unpublish_body env target_path = do unmount_target env target_path; delete_mount_context target_path

unfoldable pub node_unpublish_volume : Env → NodeUnpublishVolumeRequest → M Status Unit
node_unpublish_volume env req = do
  lift (validate_unpublish_volume_request req)
  with_volume_lock req.volume_id req.target_path (unpublish_body env req.target_path)
