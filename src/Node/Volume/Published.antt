-- ===== src/Node/Volume/Published.antt =====
-- The stages of a publish request, by what the state holds at each.
pub mod Load
pub mod Mounting
pub mod Body
pub mod Request
pub mod Laws
use csi_driver_rclone.Prelude.{
  ℕ, ◌≡◌, ◌⊎◌, true, List, [], ◌∷◌, some, Result, ok, err, Bool-cases, inl, inr,
}
use csi_driver_rclone.Text.{Text}
use csi_driver_rclone.GoMap.{GoMap}
use csi_driver_rclone.Status.{Status}
use csi_driver_rclone.Locks.{has, VolumeLocks, lock_key, release}
use csi_driver_rclone.Node.Calls.{Env, Node, Trace, MountContext, MountPoint, Mounted}
use csi_driver_rclone.Node.Monad.{M}
use csi_driver_rclone.Node.Outcome.{Outcome}
use csi_driver_rclone.Node.Volume.{with_volume_lock}
use csi_driver_rclone.Node.Effects.{live, live-Calm, mounted, mounted-Calm, Calm}

-- The contexts are `contexts`, the mounts that were asked for are `asked`, and a section `n` stands in
-- rclone's config only if `W n`.
pub record At (contexts : GoMap MountContext) (asked : List (Text × Text)) (W : Text → Type 0)
    (s : Node) : Type 0 where
  pub same : s.mount_context ≡ contexts
  pub mounts : mounted s.trace ≡ asked
  pub standing : (n : Text) → live s.trace n ≡ true → W n

-- The section stands for an old reason, or is one of the list.
abbrev pub OrIn : (Text → Type 0) → List Text → Text → Type 0
OrIn W remotes n = W n ⊎ (has remotes n ≡ true)

pub At-Calm :
    (contexts : GoMap MountContext) (asked : List (Text × Text)) (W : Text → Type 0)
    → Calm (At contexts asked W)
At-Calm contexts asked W = record {
  quiet = λ c q. record {
    after = λ s h. record {
      same = h.same;
      mounts = ((mounted-Calm (λ l. l ≡ asked)).quiet c q).after s h.mounts;
      standing = λ n. ((live-Calm (λ b. b ≡ true → W n) n).quiet c q).after s (h.standing n);
    };
  };
}

-- The context of a mount at the target that rclone has made, with the remotes that were loaded.
pub record IsContext (env : Env) (target : Text) (remotes : List Text) (mc : MountContext)
    : Type 0 where
  pub point : MountPoint
  pub has_point : mc.mount_point ≡ some point
  pub at_target : point.target ≡ target
  pub answered :
      (t : Trace) × (made : Mounted) × (env.on_mount t target ≡ ok made) × (made.id ≡ point.id)
  pub has_remotes : mc.remotes ≡ remotes

-- What a body leads to, it leads to under the lock, if it does not speak of the locks.
module _ (P Q R : Node → Type 0) (refused : (s : Node) → P s → R s)
    (taken : (vl : VolumeLocks) (s : Node) → P s → P (record s { volume_locks = vl }))
    (kept : (vl : VolumeLocks) (s : Node) → Q s → Q (record s { volume_locks = vl }))
    (failed : (vl : VolumeLocks) (s : Node) → R s → R (record s { volume_locks = vl })) where
  released :
      {A : Type 0} (vl : Node → VolumeLocks) (r : Result Status A × Node)
      → Outcome (λ _. Q) R r
      → Outcome (λ _. Q) R (r.0, record (r.1) { volume_locks = vl r.1 })
  released vl (ok a, s) h = kept _ s h
  released vl (err e, s) h = failed _ s h

  pub locked_lem :
      {A : Type 0} (volume_id target : Text) (body : M Status A)
      → ((s : Node) → P s → Outcome (λ _. Q) R (body s))
      → (s : Node) → P s
      → Outcome (λ _. Q) R (with_volume_lock volume_id target body s)
  unfolding with_volume_lock
  locked_lem volume_id target body k s h =
      elim (Bool-cases (has s.volume_locks.locks (lock_key volume_id target))) [
        | inl busy ↦ rw busy (refused s h)
        | inr free ↦ rw free (
            released (λ t. release t.volume_locks (lock_key volume_id target)) _
              (k _ (taken _ s h)))
      ]
