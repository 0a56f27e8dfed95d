-- ===== src/Node/Volume/Remotes.antt =====
-- Which mount a section of rclone's config belongs to.
pub mod Unpublish
pub mod Publish
use csi_driver_rclone.Prelude.{
  ◌≡◌, Bool, true, Option, some, Bool-cases, inl, inr, Result, ok, err, subst, sym, [],
}
use csi_driver_rclone.Text.{Text}
use csi_driver_rclone.GoMap.{GoMap, get}
use csi_driver_rclone.Status.{Status}
use csi_driver_rclone.Locks.{VolumeLocks, has, lock_key}
use csi_driver_rclone.Node.Calls.{Node, Trace, MountContext, MountPoint}
use csi_driver_rclone.Node.Monad.{M}
use csi_driver_rclone.Node.Keeps.{Post}
use csi_driver_rclone.Node.Effects.{live, Calm, live-Calm}
use csi_driver_rclone.Node.Volume.{with_volume_lock}

-- A mount context that names the section among its remotes.
abbrev pub Owner : GoMap MountContext → Text → Type 0
Owner contexts n =
    (target : Text) × (mc : MountContext) × (get contexts target ≡ some mc)
    × (has mc.remotes n ≡ true)

-- Every section that stands in the config belongs to a context, and every context has a mount point.
pub record IsOwned (s : Node) : Type 0 where
  pub owners : (n : Text) → live s.trace n ≡ true → Owner s.mount_context n
  pub points :
      (target : Text) (mc : MountContext)
      → get s.mount_context target ≡ some mc
      → (p : MountPoint) × (mc.mount_point ≡ some p)

-- The contexts are `contexts`, and the section stands only if `W`.
pub record Within (contexts : GoMap MountContext) (n : Text) (W : Type 0) (s : Node) : Type 0 where
  pub standing : live s.trace n ≡ true → W
  pub same : s.mount_context ≡ contexts

pub Within-Calm :
    (contexts : GoMap MountContext) (n : Text) (W : Type 0) → Calm (Within contexts n W)
Within-Calm contexts n W = record {
  quiet = λ c q. record {
    after = λ s h. record {
      standing = ((live-Calm (λ b. b ≡ true → W) n).quiet c q).after s h.standing;
      same = h.same;
    };
  };
}

-- Where no context has changed, a section that stands with an owner of old still has it.
pub Within-IsOwned :
    (contexts : GoMap MountContext) (s : Node)
    → ((n : Text) → Within contexts n (Owner contexts n) s)
    → ((t : Text) (mc : MountContext)
        → get contexts t ≡ some mc
        → (p : MountPoint) × (mc.mount_point ≡ some p))
    → IsOwned s
Within-IsOwned contexts s kept points = record {
  owners = λ n l. subst (λ c. Owner c n) (sym (kept n).same) ((kept n).standing l);
  points = λ t mc e. points t mc (rw (← (kept []).same) e);
}

-- What holds of the state holds after a return.
pub Post-state : {E A : Type 0} (Q : Node → Type 0) (r : Result E A × Node) → Q r.1 → Post Q r
Post-state Q (ok a, s) h = h
Post-state Q (err e, s) h = tt

-- What a body leads to, it leads to under the lock, if it does not speak of the locks.
module _ (P Q : Node → Type 0) (refused : (s : Node) → P s → Q s)
    (taken : (vl : VolumeLocks) (s : Node) → P s → P (record s { volume_locks = vl }))
    (released : (vl : VolumeLocks) (s : Node) → Q s → Q (record s { volume_locks = vl })) where
  pub under_lock :
      {A : Type 0} (volume_id target : Text) (body : M Status A)
      → ((s : Node) → P s → Q (body s).1)
      → (s : Node) → P s
      → Q (with_volume_lock volume_id target body s).1
  unfolding with_volume_lock
  under_lock volume_id target body k s h =
      elim (Bool-cases (has s.volume_locks.locks (lock_key volume_id target))) [
        | inl busy ↦ rw busy (refused s h)
        | inr free ↦ rw free (released _ _ (k _ (taken _ s h)))
      ]
