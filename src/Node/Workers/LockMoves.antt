-- ===== src/Node/Workers/LockMoves.antt =====
-- What each stage does to the locks.
use csi_driver_rclone.Prelude.{
  ℕ, ◌≡◌, ◌∙◌, refl, ap, sym, true, false, Bool, Option, none, some, Result, ok, err, List,
}
use csi_driver_rclone.Text.{Text}
use csi_driver_rclone.Status.{Status, Reply}
use csi_driver_rclone.Locks.{VolumeLocks, try_acquire, release, lock_key}
use csi_driver_rclone.Csi.{VolumeCapability, NodePublishVolumeRequest, NodeUnpublishVolumeRequest}
use csi_driver_rclone.Params.{PublishVolumeParams}
use csi_driver_rclone.Node.Calls.{Env, Node, MountPoint, MountContext}
use csi_driver_rclone.Node.Target.{prepare_target_directory}
use csi_driver_rclone.Node.Target.Laws.{prepare-Keeps}
use csi_driver_rclone.Node.Config.{load_rclone_config}
use csi_driver_rclone.Node.Config.Laws.{load-Keeps, cleanup-Keeps}
use csi_driver_rclone.Node.Mount.Laws.{create-Keeps}
use csi_driver_rclone.Node.Volume.{set_mount_context, delete_mount_context, point_of}
use csi_driver_rclone.Node.Workers.Unmounting.{
  calls-Keeps, cleanup-Keeps as cleanup_call-Keeps, deletes-Keeps,
}
use csi_driver_rclone.Node.Volume.Requests.{locks-Unmoved, locks-Lasting}
use csi_driver_rclone.Node.Workers.{
  Stage, idle, publish_requested, publish_locked, publish_prepared, publish_loaded, publish_failed,
  publish_mounted, unpublish_requested, unpublish_locked, unpublish_read, unpublish_unmounted,
  unpublish_cleared, unpublish_cleaned, unmounting, unmount_calls, cleanup_call, unmount_stage,
  releasing, answered, or_release, lock_stage, enter, prepared_stage, prepare_stage, load_stage,
  mount_stage, stage_step,
}
use csi_driver_rclone.Node.Workers.Reachable.{away, asking, busy, phase}

-- What a stage does to the locks.
pub data LockMove (p : Stage) (s : Node) (r : Stage × Node) : Type 0 where
  kept : phase r.0 ≡ phase p → r.1.volume_locks ≡ s.volume_locks → LockMove p s r
  rejected :
      (volume_id target : Text)
      → phase p ≡ asking volume_id target
      → phase r.0 ≡ away
      → r.1.volume_locks ≡ s.volume_locks
      → LockMove p s r
  took :
      (volume_id target : Text)
      → phase p ≡ asking volume_id target
      → (try_acquire s.volume_locks (lock_key volume_id target)).0 ≡ true
      → phase r.0 ≡ busy volume_id target
      → r.1.volume_locks ≡ (try_acquire s.volume_locks (lock_key volume_id target)).1
      → LockMove p s r
  refused :
      (volume_id target : Text)
      → phase p ≡ asking volume_id target
      → (try_acquire s.volume_locks (lock_key volume_id target)).0 ≡ false
      → phase r.0 ≡ away
      → r.1.volume_locks ≡ (try_acquire s.volume_locks (lock_key volume_id target)).1
      → LockMove p s r
  gave :
      (volume_id target : Text)
      → phase p ≡ busy volume_id target
      → phase r.0 ≡ away
      → r.1.volume_locks ≡ release s.volume_locks (lock_key volume_id target)
      → LockMove p s r

module _ (p : Stage) (s : Node) where
  enter-LockMove :
      {A : Type 0} (r : Reply A) (volume_id target : Text) (onward : A → Stage)
      → phase p ≡ asking volume_id target
      → ((a : A) → phase (onward a) ≡ busy volume_id target)
      → LockMove p s (enter r volume_id target onward s)
  enter-LockMove (ok a) volume_id target onward e h =
      go (try_acquire s.volume_locks (lock_key volume_id target)) refl
    where
      go :
          (x : Bool × VolumeLocks)
          → try_acquire s.volume_locks (lock_key volume_id target) ≡ x
          → LockMove p s (lock_stage volume_id target (onward a) x s)
      go (true, vl) q = took volume_id target e (ap (λ x. x.0) q) (h a) (sym (ap (λ x. x.1) q))
      go (false, vl) q = refused volume_id target e (ap (λ x. x.0) q) refl (sym (ap (λ x. x.1) q))
  enter-LockMove (err x) volume_id target onward e h = rejected volume_id target e refl refl

  or_release-LockMove :
      {A : Type 0} (volume_id target : Text) (r : Result Status A × Node) (onward : A → Stage)
      → phase p ≡ busy volume_id target
      → ((a : A) → phase (onward a) ≡ busy volume_id target)
      → r.1.volume_locks ≡ s.volume_locks
      → LockMove p s (or_release volume_id target r onward)
  or_release-LockMove volume_id target (ok a, t) onward e h k = kept (h a ∙ sym e) k
  or_release-LockMove volume_id target (err x, t) onward e h k = kept (sym e) k

  prepared-LockMove :
      (env : Env) (req : NodePublishVolumeRequest) (pvp : PublishVolumeParams) (options : List Text)
      (r : Result Status (Unit {0}) × Node)
      → phase p ≡ busy req.volume_id req.target_path
      → r.1.volume_locks ≡ s.volume_locks
      → LockMove p s (prepared_stage env req (publish_prepared req pvp options) r)
  prepared-LockMove env req pvp options (ok a, t) e k = kept (sym e) k
  prepared-LockMove env req pvp options (err x, t) e k = kept (sym e) k

  prepare-LockMove :
      (env : Env) (req : NodePublishVolumeRequest) (capability : VolumeCapability)
      (r : Reply PublishVolumeParams)
      → phase p ≡ busy req.volume_id req.target_path
      → LockMove p s (prepare_stage env req capability r s)
  prepare-LockMove env req capability (ok pvp) e =
      prepared-LockMove env req pvp _ (prepare_target_directory env req.target_path s) e
        ((prepare-Keeps (locks-Unmoved s.volume_locks).calm env req.target_path).at s refl)
  prepare-LockMove env req capability (err x) e = kept (sym e) refl

  load-LockMove :
      (env : Env) (req : NodePublishVolumeRequest) (options : List Text)
      (r : Reply PublishVolumeParams)
      → phase p ≡ busy req.volume_id req.target_path
      → LockMove p s (load_stage env req options r s)
  load-LockMove env req options (ok filled) e =
      or_release-LockMove req.volume_id req.target_path (load_rclone_config env filled s)
        (λ remotes. publish_loaded req filled options remotes) e (λ a. refl)
        ((load-Keeps env filled (locks-Unmoved s.volume_locks).config).at s refl)
  load-LockMove env req options (err x) e = kept (sym e) refl

  mount-LockMove :
      (req : NodePublishVolumeRequest) (pvp : PublishVolumeParams) (remotes : List Text)
      (r : Result Status (MountPoint × ℕ) × Node)
      → phase p ≡ busy req.volume_id req.target_path
      → r.1.volume_locks ≡ s.volume_locks
      → LockMove p s (mount_stage req pvp remotes r)
  mount-LockMove req pvp remotes (ok a, t) e k = kept (sym e) k
  mount-LockMove req pvp remotes (err x, t) e k = kept (sym e) k

unmount-LockMove :
    (s : Node) (env : Env) (req : NodeUnpublishVolumeRequest) (mc o : Option MountContext)
    (q : Option MountPoint)
    → LockMove (unpublish_read req mc) s (unmount_stage env req o q s)
unmount-LockMove s env req mc (some m) (some q) =
    or_release-LockMove (unpublish_read req mc) s req.volume_id req.target_path
      (unmounting req.target_path (unmount_calls env m q) s) _ refl (λ a. refl)
      ((calls-Keeps (locks-Lasting s.volume_locks) env m q).at s refl)
unmount-LockMove s env req mc (some m) none = kept refl refl
unmount-LockMove s env req mc none q = kept refl refl

pub step-LockMove : (env : Env) (p : Stage) (s : Node) → LockMove p s (stage_step env p s)
unfolding stage_step set_mount_context delete_mount_context
step-LockMove env idle s = kept refl refl
step-LockMove env (publish_requested req) s =
    enter-LockMove (publish_requested req) s _ req.volume_id req.target_path _ refl (λ a. refl)
step-LockMove env (publish_locked req capability) s =
    prepare-LockMove (publish_locked req capability) s env req capability _ refl
step-LockMove env (publish_prepared req pvp options) s =
    load-LockMove (publish_prepared req pvp options) s env req options _ refl
step-LockMove env (publish_loaded req pvp options remotes) s =
    mount-LockMove (publish_loaded req pvp options remotes) s req pvp remotes _ refl (
      (create-Keeps (locks-Unmoved s.volume_locks).calm (locks-Unmoved s.volume_locks).mounting env
          _ req.target_path options pvp.params).at
        s refl)
step-LockMove env (publish_failed req remotes e) s = kept refl (
    (cleanup-Keeps {E = Status} remotes (λ n. (locks-Lasting s.volume_locks).deleting n)).at s refl)
step-LockMove env (publish_mounted req mc) s = kept refl refl
step-LockMove env (unpublish_requested req) s =
    enter-LockMove (unpublish_requested req) s _ req.volume_id req.target_path _ refl (λ a. refl)
step-LockMove env (unpublish_locked req) s = kept refl refl
step-LockMove env (unpublish_read req mc) s = unmount-LockMove s env req mc mc (point_of mc)
step-LockMove env (unpublish_unmounted req mc) s =
    kept refl ((deletes-Keeps (locks-Lasting s.volume_locks) mc).at s refl)
step-LockMove env (unpublish_cleared req) s =
    or_release-LockMove (unpublish_cleared req) s req.volume_id req.target_path
      (unmounting req.target_path (cleanup_call env req.target_path) s) _ refl (λ a. refl)
      ((cleanup_call-Keeps (locks-Lasting s.volume_locks) env req.target_path).at s refl)
step-LockMove env (unpublish_cleaned req) s = kept refl refl
step-LockMove env (releasing volume_id target answer) s = gave volume_id target refl refl refl
step-LockMove env (answered answer) s = kept refl refl
