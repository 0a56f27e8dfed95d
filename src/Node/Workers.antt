-- ===== src/Node/Workers.antt =====
-- Requests that several workers handle at once (the handlers of pkg/rclone/nodeserver.go, which gRPC
-- runs each in a goroutine of its own). A handler is cut into stages between which others may run: each
-- has at most one of the sections that are under `mu` or `configMu`, or one call on the volume locks. A
-- stage runs whole.
pub mod Rank
pub mod Parts
pub mod Unmounting
pub mod Reachable
pub mod LockMoves
pub mod Locking
pub mod Moves
pub mod PublishMoves
pub mod UnpublishMoves
pub mod Steps
pub mod Owned
pub mod Left
use csi_driver_rclone.Prelude.{
  ℕ, zero, suc, Bool, true, false, Option, none, some, List, [], ◌∷◌, ◌++◌, ◌≡◌, Result, ok, err,
  if◌then◌else◌, ◌==◌, ltb, length,
}
use csi_driver_rclone.Text.{Text, codes, is_empty}
use csi_driver_rclone.GoMap.{get}
use csi_driver_rclone.Version.{Build}
use csi_driver_rclone.Driver.{Driver, DriverOptions, new_driver}
use csi_driver_rclone.Node.History.{new_node_server}
use csi_driver_rclone.Status.{Status, Reply, error, aborted, internal}
use csi_driver_rclone.Locks.{VolumeLocks, try_acquire, release, lock_key}
use csi_driver_rclone.Csi.{
  VolumeCapability, get_mount, NodePublishVolumeRequest, NodeUnpublishVolumeRequest,
}
use csi_driver_rclone.Params.{
  PublishVolumeParams, merge_volume_parameters, extract_publish_params, generate_config_data,
  build_fs_path,
}
use csi_driver_rclone.Node.Calls.{
  Env, Node, MountPoint, MountContext, unmount_mount_point, cleanup_mount_point,
  cleanup_mount_with_force,
}
use csi_driver_rclone.Node.Monad.{M, ◌>>=◌, ◌>>◌, pure, perform, wrapped, ignored}
use csi_driver_rclone.Node.Sync.{wait_for_vfs_cache_sync}
use csi_driver_rclone.Node.Target.{prepare_target_directory}
use csi_driver_rclone.Node.Config.{load_rclone_config, cleanup_config_remotes, delete_sections}
use csi_driver_rclone.Node.Mount.{create_and_mount_filesystem}
use csi_driver_rclone.Node.Volume.{
  validate_publish_volume_request, validate_unpublish_volume_request, with_group, mount_options_of,
  set_mount_context, delete_mount_context, get_mount_context, point_of, cancel_given, need_vfs,
}

abbrev pub Answer : Type 0
Answer = Result Status (Unit {0})

-- Where a worker stands: the request that it handles, and what it has worked out.
pub data Stage : Type 0 where
  idle : Stage
  publish_requested : (req : NodePublishVolumeRequest) → Stage
  publish_locked : (req : NodePublishVolumeRequest) (capability : VolumeCapability) → Stage
  publish_prepared :
      (req : NodePublishVolumeRequest) (pvp : PublishVolumeParams) (options : List Text) → Stage
  publish_loaded :
      (req : NodePublishVolumeRequest) (pvp : PublishVolumeParams) (options remotes : List Text)
      → Stage
  -- The mount has failed, and the deferred cleanup is to be run.
  publish_failed : (req : NodePublishVolumeRequest) (remotes : List Text) (e : Status) → Stage
  publish_mounted : (req : NodePublishVolumeRequest) (mc : MountContext) → Stage
  unpublish_requested : (req : NodeUnpublishVolumeRequest) → Stage
  unpublish_locked : (req : NodeUnpublishVolumeRequest) → Stage
  -- The context of the target was read.
  unpublish_read : (req : NodeUnpublishVolumeRequest) (mc : Option MountContext) → Stage
  -- The mount was unmounted, and the sections of its remotes are to be deleted.
  unpublish_unmounted : (req : NodeUnpublishVolumeRequest) (mc : MountContext) → Stage
  unpublish_cleared : (req : NodeUnpublishVolumeRequest) → Stage
  -- The target was cleaned up, and the context is to be deleted.
  unpublish_cleaned : (req : NodeUnpublishVolumeRequest) → Stage
  -- The deferred release of the lock is to be run.
  releasing : (volume_id target : Text) (answer : Answer) → Stage
  answered : (answer : Answer) → Stage

-- After a stage under the lock: on an error the lock is to be released.
abbrev pub or_release :
    {A : Type 0} → Text → Text → Result Status A × Node → (A → Stage) → Stage × Node
or_release volume_id target (ok a, s) onward = (onward a, s)
or_release volume_id target (err e, s) onward = (releasing volume_id target (err e), s)

-- A request that is not valid is answered at once, as is one whose lock is held.
abbrev pub lock_stage : Text → Text → Stage → Bool × VolumeLocks → Node → Stage × Node
lock_stage volume_id target onward (true, vl) s = (onward, record s { volume_locks = vl })
lock_stage volume_id target onward (false, vl) s = (
  answered (
      err (
        error aborted (
          codes "An operation with the given Volume ID "
          ++ (volume_id ++ codes " already exists")))),
  record s { volume_locks = vl },
)

abbrev pub enter : {A : Type 0} → Reply A → Text → Text → (A → Stage) → Node → Stage × Node
enter (ok a) volume_id target onward s =
    lock_stage volume_id target (onward a) (try_acquire s.volume_locks (lock_key volume_id target))
      s
enter (err e) volume_id target onward s = (answered (err e), s)

-- The test behind `prepareTargetDirectory`.
abbrev pub prepared_stage :
    Env → NodePublishVolumeRequest → Stage → Result Status (Unit {0}) × Node → Stage × Node
prepared_stage env req onward (ok _, s) = (onward, s)
prepared_stage env req onward (err e, s) = (
  releasing req.volume_id req.target_path (if is_empty (env.status_text e) then ok tt else err e),
  s,
)

abbrev pub prepare_stage :
    Env
    → NodePublishVolumeRequest
    → VolumeCapability
    → Reply PublishVolumeParams
    → Node
    → Stage × Node
prepare_stage env req capability (ok pvp) s =
    prepared_stage env req
      (publish_prepared req pvp (mount_options_of (get_mount capability) req.readonly))
      (prepare_target_directory env req.target_path s)
prepare_stage env req capability (err e) s = (releasing req.volume_id req.target_path (err e), s)

abbrev pub load_stage :
    Env → NodePublishVolumeRequest → List Text → Reply PublishVolumeParams → Node → Stage × Node
load_stage env req options (ok filled) s =
    or_release req.volume_id req.target_path (load_rclone_config env filled s)
      (λ remotes. publish_loaded req filled options remotes)
load_stage env req options (err e) s = (releasing req.volume_id req.target_path (err e), s)

abbrev pub mount_stage :
    NodePublishVolumeRequest
    → PublishVolumeParams
    → List Text
    → Result Status (MountPoint × ℕ) × Node
    → Stage × Node
mount_stage req pvp remotes (ok (mount_point, ctx), s) = (
  publish_mounted req (record {
    mount_point = some mount_point;
    remote_name = pvp.remote_name;
    remotes = remotes;
    cancel_func = some ctx;
  }),
  s,
)
mount_stage req pvp remotes (err e, s) = (publish_failed req remotes e, s)

-- The calls of `unmountVolume` before it deletes sections, and the one after.
abbrev pub unmount_calls : Env → MountContext → MountPoint → M Text Unit
unmount_calls env mc mount_point = do
  need_vfs mount_point
  wait_for_vfs_cache_sync env mount_point
  ignored (
      perform (unmount_mount_point mount_point.id)
        (λ t. env.on_unmount_mount_point t mount_point.id))
  cancel_given mc.cancel_func

abbrev pub cleanup_call : Env → Text → M Text Unit
cleanup_call env target_path =
    if env.force_unmounter
    then perform (cleanup_mount_with_force target_path 30) (λ t. env.on_cleanup t target_path)
    else perform (cleanup_mount_point target_path) (λ t. env.on_cleanup t target_path)

-- The error of an unpublish request whose target cannot be unmounted.
abbrev pub unmounting : Text → M Text Unit → M Status Unit
unmounting target_path m =
    wrapped internal (codes "failed to unmount target \"" ++ (target_path ++ codes "\": ")) m

abbrev pub unmount_stage :
    Env → NodeUnpublishVolumeRequest → Option MountContext → Option MountPoint → Node → Stage × Node
unmount_stage env req (some mc) (some mount_point) s =
    or_release req.volume_id req.target_path
      (unmounting req.target_path (unmount_calls env mc mount_point) s)
      (λ _. unpublish_unmounted req mc)
unmount_stage env req _ _ s = (unpublish_cleared req, s)

-- The next stage of a worker, and what it does to the node server.
unfoldable pub stage_step : Env → Stage → Node → Stage × Node
stage_step env idle s = (idle, s)
stage_step env (publish_requested req) s =
    enter (validate_publish_volume_request req) req.volume_id req.target_path
      (λ capability. publish_locked req capability) s
stage_step env (publish_locked req capability) s =
    prepare_stage env req capability
      (extract_publish_params (
        with_group (get_mount capability) (merge_volume_parameters req.secrets req.volume_context)))
      s
stage_step env (publish_prepared req pvp options) s =
    load_stage env req options (generate_config_data pvp) s
stage_step env (publish_loaded req pvp options remotes) s = mount_stage req pvp remotes (
    create_and_mount_filesystem env (build_fs_path pvp.remote_name pvp.remote_path) req.target_path
      options pvp.params s)
stage_step env (publish_failed req remotes e) s = (
  releasing req.volume_id req.target_path (err e),
  (cleanup_config_remotes {E = Status} remotes s).1,
)
stage_step env (publish_mounted req mc) s = (
  releasing req.volume_id req.target_path (ok tt),
  (set_mount_context {E = Status} req.target_path mc s).1,
)
stage_step env (unpublish_requested req) s =
    enter (validate_unpublish_volume_request req) req.volume_id req.target_path
      (λ _. unpublish_locked req) s
stage_step env (unpublish_locked req) s =
    (unpublish_read req (get_mount_context s req.target_path), s)
stage_step env (unpublish_read req mc) s = unmount_stage env req mc (point_of mc) s
stage_step env (unpublish_unmounted req mc) s = (
  unpublish_cleared req,
  ((if ltb 0 (length mc.remotes) then delete_sections {E = Text} mc.remotes else pure tt) s).1,
)
stage_step env (unpublish_cleared req) s =
    or_release req.volume_id req.target_path
      (unmounting req.target_path (cleanup_call env req.target_path) s) (λ _. unpublish_cleaned req)
stage_step env (unpublish_cleaned req) s = (
  releasing req.volume_id req.target_path (ok tt),
  (delete_mount_context {E = Status} req.target_path s).1,
)
stage_step env (releasing volume_id target answer) s = (
  answered answer,
  record s { volume_locks = release s.volume_locks (lock_key volume_id target) },
)
stage_step env (answered answer) s = (answered answer, s)
