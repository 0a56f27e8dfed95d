-- ===== src/Node/Workers/PublishMoves.antt =====
-- The stages of a publish request, as moves.
use csi_driver_rclone.Prelude.{
  ℕ, ◌≡◌, ◌∙◌, refl, arith, true, false, Bool, some, Result, ok, err, Bool-cases, inl, inr, List,
  [],
}
use csi_driver_rclone.Text.{Text}
use csi_driver_rclone.GoMap.{Params}
use csi_driver_rclone.Status.{Status, Reply}
use csi_driver_rclone.Locks.{VolumeLocks, try_acquire, lock_key, has}
use csi_driver_rclone.Csi.{VolumeCapability, NodePublishVolumeRequest}
use csi_driver_rclone.Params.{PublishVolumeParams}
use csi_driver_rclone.Node.Calls.{Env, Node, Trace, MountPoint}
use csi_driver_rclone.Node.Effects.{live, mounted}
use csi_driver_rclone.Node.Target.{prepare_target_directory}
use csi_driver_rclone.Node.Target.Laws.{prepare-Keeps}
use csi_driver_rclone.Node.Config.{load_rclone_config, cleanup_config_remotes}
use csi_driver_rclone.Node.Config.Laws.{cleanup-Keeps}
use csi_driver_rclone.Node.Volume.Published.Load.{load-Loaded, live-cleanup, Loaded}
use csi_driver_rclone.Node.Workers.{
  Stage, publish_prepared, publish_loaded, publish_failed, releasing, answered, Answer, or_release,
  lock_stage, enter, prepared_stage, prepare_stage, load_stage, mount_stage,
}
use csi_driver_rclone.Node.Workers.Moves.{
  held, publishing_at, IsLeaving, Move, other, Lesser, Lesser-Calm, Lesser-Lasting, Lesser-refl,
  leaving-Move, publishing-Move, not_held,
}

pub releasing-IsLeaving :
    (volume_id target : Text) (answer : Answer) → IsLeaving (releasing volume_id target answer)
releasing-IsLeaving volume_id target answer = record {
  nothing = refl;
  not_publishing = refl;
  not_dropping = refl;
  not_reading = refl;
  pointed = tt;
}

pub answered-IsLeaving : (answer : Answer) → IsLeaving (answered answer)
answered-IsLeaving answer = record {
  nothing = refl;
  not_publishing = refl;
  not_dropping = refl;
  not_reading = refl;
  pointed = tt;
}

pub relocked-Lesser : (s : Node) (vl : VolumeLocks) → Lesser s (record s { volume_locks = vl })
relocked-Lesser s vl = record { same = refl; fewer = λ n l. l }

module _ (p : Stage) (s : Node) (free : held p ≡ []) where
  pub enter-Move :
      {A : Type 0} (r : Reply A) (volume_id target : Text) (onward : A → Stage)
      → ((a : A) (vl : VolumeLocks) → Move p s (onward a, record s { volume_locks = vl }))
      → Move p s (enter r volume_id target onward s)
  enter-Move (ok a) volume_id target onward h =
      go (try_acquire s.volume_locks (lock_key volume_id target))
    where
      go : (x : Bool × VolumeLocks) → Move p s (lock_stage volume_id target (onward a) x s)
      go (true, vl) = h a vl
      go (false, vl) = leaving-Move p s free _ _ (relocked-Lesser s vl) (answered-IsLeaving _)
  enter-Move (err e) volume_id target onward h =
      leaving-Move p s free _ s (Lesser-refl s) (answered-IsLeaving _)

  prepared-Move :
      (env : Env) (req : NodePublishVolumeRequest) (pvp : PublishVolumeParams) (options : List Text)
      (r : Result Status (Unit {0}) × Node)
      → publishing_at p ≡ some req.target_path
      → Lesser s r.1
      → Move p s (prepared_stage env req (publish_prepared req pvp options) r)
  prepared-Move env req pvp options (ok a, t) e h =
      publishing-Move p s free _ t req.target_path h refl refl refl tt (inl e)
  prepared-Move env req pvp options (err x, t) e h =
      leaving-Move p s free _ t h (releasing-IsLeaving _ _ _)

  pub prepare-Move :
      (env : Env) (req : NodePublishVolumeRequest) (capability : VolumeCapability)
      (r : Reply PublishVolumeParams)
      → publishing_at p ≡ some req.target_path
      → Move p s (prepare_stage env req capability r s)
  prepare-Move env req capability (ok pvp) e =
      prepared-Move env req pvp _ (prepare_target_directory env req.target_path s) e
        ((prepare-Keeps (Lesser-Calm s) env req.target_path).at s (Lesser-refl s))
  prepare-Move env req capability (err x) e =
      leaving-Move p s free _ s (Lesser-refl s) (releasing-IsLeaving _ _ _)

  load_rest-Move :
      (req : NodePublishVolumeRequest) (filled : PublishVolumeParams) (options : List Text)
      (r : Result Status (List Text) × Node)
      → publishing_at p ≡ some req.target_path
      → Loaded s.mount_context (mounted s.trace) (λ n. live s.trace n ≡ true) r
      → Move p s (
          or_release req.volume_id req.target_path r
            (λ remotes. publish_loaded req filled options remotes))
  load_rest-Move req filled options (ok remotes, t) e h = other (record {
    same = h.same;
    standing = λ n y. elim (h.standing n y) [
      | inl old ↦ inr (old, not_held p s free n)
      | inr new ↦ inl new
    ];
    dropped = λ u mc n e'. absurd (cc);
    read = λ u e'. absurd (cc);
    target = λ u e'. inl (e ∙ e');
    pointed = tt;
  })
  load_rest-Move req filled options (err x, t) e h =
      leaving-Move p s free _ t (record { same = h.same; fewer = h.standing })
        (releasing-IsLeaving _ _ _)

  pub load-Move :
      (env : Env)
      (updates : (t : Trace) (m : Text) (q : Params) → env.on_update_remote t m q ≡ ok tt)
      (req : NodePublishVolumeRequest) (options : List Text) (r : Reply PublishVolumeParams)
      → publishing_at p ≡ some req.target_path
      → Move p s (load_stage env req options r s)
  load-Move env updates req options (ok filled) e =
      load_rest-Move req filled options (load_rclone_config env filled s) e (
        load-Loaded s.mount_context (mounted s.trace) (λ n. live s.trace n ≡ true) env updates
          filled s (record { same = refl; mounts = refl; standing = λ n l. l }))
  load-Move env updates req options (err x) e =
      leaving-Move p s free _ s (Lesser-refl s) (releasing-IsLeaving _ _ _)

-- The remotes are kept for the context, or for the deferred cleanup.
pub mounted-Move :
    (req : NodePublishVolumeRequest) (pvp : PublishVolumeParams) (options remotes : List Text)
    (s : Node) (r : Result Status (MountPoint × ℕ) × Node)
    → Lesser s r.1
    → Move (publish_loaded req pvp options remotes) s (mount_stage req pvp remotes r)
mounted-Move req pvp options remotes s (ok (q, ctx), t) h = other (record {
  same = h.same;
  standing = λ n y. elim (Bool-cases (has remotes n)) [
    | inl new ↦ inl new
    | inr old ↦ inr (h.fewer n y, old)
  ];
  dropped = λ u mc n e'. absurd (cc);
  read = λ u e'. absurd (cc);
  target = λ u e'. inl e';
  pointed = (q, refl);
})
mounted-Move req pvp options remotes s (err x, t) h = other (record {
  same = h.same;
  standing = λ n y. elim (Bool-cases (has remotes n)) [
    | inl new ↦ inl new
    | inr old ↦ inr (h.fewer n y, old)
  ];
  dropped = λ u mc n e'. absurd (cc);
  read = λ u e'. absurd (cc);
  target = λ u e'. absurd (cc);
  pointed = tt;
})

pub cleaned-Move :
    (req : NodePublishVolumeRequest) (remotes : List Text) (e : Status) (s : Node)
    → Move (publish_failed req remotes e) s (
      releasing req.volume_id req.target_path (err e),
      (cleanup_config_remotes {E = Status} remotes s).1,
    )
unfolding has
cleaned-Move req remotes e s =
    let h : Lesser s (cleanup_config_remotes {E = Status} remotes s).1 =
      (cleanup-Keeps {E = Status} remotes (Lesser-Lasting s).deleting).at s (Lesser-refl s) in
    other (record {
      same = h.same;
      standing = λ n y. inr (h.fewer n y, ground (arith, live-cleanup remotes s n, y));
      dropped = λ u mc n e'. absurd (cc);
      read = λ u e'. absurd (cc);
      target = λ u e'. absurd (cc);
      pointed = tt;
    })
