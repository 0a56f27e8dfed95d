-- ===== src/Node/Workers/Rank.antt =====
-- How many stages a worker has left.
use csi_driver_rclone.Prelude.{
  ℕ, ◌≤◌, ◌-◌, arith, Result, ok, err, Bool-cases, inl, inr, List, Option, none, some,
}
use csi_driver_rclone.Text.{Text}
use csi_driver_rclone.Status.{Status, Reply}
use csi_driver_rclone.Locks.{try_acquire, lock_key, has}
use csi_driver_rclone.Csi.{VolumeCapability, NodePublishVolumeRequest, NodeUnpublishVolumeRequest}
use csi_driver_rclone.Params.{PublishVolumeParams}
use csi_driver_rclone.Node.Calls.{Env, Node, MountPoint, MountContext}
use csi_driver_rclone.Node.Config.{load_rclone_config}
use csi_driver_rclone.Node.Volume.{point_of}
use csi_driver_rclone.Node.Workers.{
  Stage, idle, publish_requested, publish_locked, publish_prepared, publish_loaded, publish_failed,
  publish_mounted, unpublish_requested, unpublish_locked, unpublish_read, unpublish_unmounted,
  unpublish_cleared, unpublish_cleaned, unmount_stage, unmount_calls, cleanup_call, unmounting,
  releasing, answered, or_release, enter, prepared_stage, prepare_stage, load_stage, mount_stage,
  stage_step,
}

-- More than the stages that are left.
abbrev pub rank : Stage → ℕ
rank idle = 9
rank (publish_requested req) = 6
rank (publish_locked req capability) = 5
rank (publish_prepared req pvp options) = 4
rank (publish_loaded req pvp options remotes) = 3
rank (publish_failed req remotes e) = 2
rank (publish_mounted req mc) = 2
rank (unpublish_requested req) = 7
rank (unpublish_locked req) = 6
rank (unpublish_read req mc) = 5
rank (unpublish_unmounted req mc) = 4
rank (unpublish_cleared req) = 3
rank (unpublish_cleaned req) = 2
rank (releasing volume_id target answer) = 1
rank (answered answer) = 0

enter-rank :
    {A : Type 0} (r : Reply A) (volume_id target : Text) (onward : A → Stage) (s : Node) (k : ℕ)
    → ((a : A) → rank (onward a) ≤ k)
    → rank (enter r volume_id target onward s).0 ≤ k
unfolding try_acquire
enter-rank (ok a) volume_id target onward s k h =
    elim (Bool-cases (has s.volume_locks.locks (lock_key volume_id target))) [
      | inl busy ↦ rw busy (omega arith)
      | inr free ↦ rw free (h a)
    ]
enter-rank (err e) volume_id target onward s k h = omega arith

or_release-rank :
    {A : Type 0} (volume_id target : Text) (r : Result Status A × Node) (onward : A → Stage) (k : ℕ)
    → 1 ≤ k
    → ((a : A) → rank (onward a) ≤ k)
    → rank (or_release volume_id target r onward).0 ≤ k
or_release-rank volume_id target (ok a, s) onward k one h = h a
or_release-rank volume_id target (err e, s) onward k one h = one

prepared-rank :
    (env : Env) (req : NodePublishVolumeRequest) (pvp : PublishVolumeParams) (options : List Text)
    (r : Result Status (Unit {0}) × Node)
    → rank (prepared_stage env req (publish_prepared req pvp options) r).0 ≤ 4
prepared-rank env req pvp options (ok a, s) = omega arith
prepared-rank env req pvp options (err e, s) = omega arith

prepare-rank :
    (env : Env) (req : NodePublishVolumeRequest) (capability : VolumeCapability)
    (r : Reply PublishVolumeParams) (s : Node)
    → rank (prepare_stage env req capability r s).0 ≤ 4
prepare-rank env req capability (ok pvp) s = prepared-rank env req pvp _ _
prepare-rank env req capability (err e) s = omega arith

load-rank :
    (env : Env) (req : NodePublishVolumeRequest) (options : List Text)
    (r : Reply PublishVolumeParams) (s : Node)
    → rank (load_stage env req options r s).0 ≤ 3
load-rank env req options (ok filled) s =
    or_release-rank req.volume_id req.target_path (load_rclone_config env filled s) _ 3
      (omega arith) (λ a. omega arith)
load-rank env req options (err e) s = omega arith

mount-rank :
    (req : NodePublishVolumeRequest) (pvp : PublishVolumeParams) (remotes : List Text)
    (r : Result Status (MountPoint × ℕ) × Node)
    → rank (mount_stage req pvp remotes r).0 ≤ 2
mount-rank req pvp remotes (ok a, s) = omega arith
mount-rank req pvp remotes (err e, s) = omega arith

unmount-rank :
    (env : Env) (req : NodeUnpublishVolumeRequest) (o : Option MountContext) (q : Option MountPoint)
    (s : Node)
    → rank (unmount_stage env req o q s).0 ≤ 4
unmount-rank env req (some mc) (some q) s =
    or_release-rank req.volume_id req.target_path
      (unmounting req.target_path (unmount_calls env mc q) s) _ 4 (omega arith) (λ a. omega arith)
unmount-rank env req (some mc) none s = omega arith
unmount-rank env req none q s = omega arith

module _ (env : Env) where
  pub step-rank : (p : Stage) (s : Node) → rank p ≤ 7 → rank (stage_step env p s).0 ≤ rank p - 1
  unfolding stage_step
  step-rank idle s h = absurd (omega arith)
  step-rank (publish_requested req) s h =
      enter-rank _ req.volume_id req.target_path _ s 5 (λ a. omega arith)
  step-rank (publish_locked req capability) s h = prepare-rank env req capability _ s
  step-rank (publish_prepared req pvp options) s h = load-rank env req options _ s
  step-rank (publish_loaded req pvp options remotes) s h = mount-rank req pvp remotes _
  step-rank (unpublish_requested req) s h =
      enter-rank _ req.volume_id req.target_path _ s 6 (λ a. omega arith)
  step-rank (unpublish_read req mc) s h = unmount-rank env req mc (point_of mc) s
  step-rank (unpublish_cleared req) s h =
      or_release-rank req.volume_id req.target_path
        (unmounting req.target_path (cleanup_call env req.target_path) s) _ 2 (omega arith)
        (λ a. omega arith)
  step-rank _ s h = omega arith
