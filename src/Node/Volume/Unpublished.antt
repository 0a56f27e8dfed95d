-- ===== src/Node/Volume/Unpublished.antt =====
-- What an unpublish request does, on each way out.
use csi_driver_rclone.Prelude.{
  ◌≡◌, refl, ap, sym, subst, true, false, ◌⊎◌, inl, inr, some, ◌∷◌, ◌++◌, Result, ok, err,
}
use csi_driver_rclone.Text.{Text}
use csi_driver_rclone.GoMap
use csi_driver_rclone.GoMap.{GoMap, get}
use csi_driver_rclone.Status.{Status}
use csi_driver_rclone.Locks.{has, VolumeLocks}
use csi_driver_rclone.Csi.{NodeUnpublishVolumeRequest}
use csi_driver_rclone.Node.Calls.{Env, Node, MountContext, MountPoint}
use csi_driver_rclone.Node.Monad.{continue}
use csi_driver_rclone.Node.Keeps.{Post}
use csi_driver_rclone.Node.Outcome.{Outcome, Outcome-weaken}
use csi_driver_rclone.Node.Effects.{live, mounted, unmounted, cleaned}
use csi_driver_rclone.Node.Volume.{
  unmount_target, unpublish_body, point_of, delete_mount_context, node_unpublish_volume,
  validate_unpublish_volume_request, with_volume_lock,
}
use csi_driver_rclone.Node.Volume.Published.{locked_lem}
use csi_driver_rclone.Node.Volume.Remotes.Unpublish.{Gone, target-Gone}
use csi_driver_rclone.Node.Volume.Unmounted.{mount_ids, Swept, Maybe, target_lem}

-- The context of the target is forgotten, its mount was asked to unmount, the target was to be cleaned
-- up, and its sections are gone.
pub record IsUnpublished (target : Text) (s s' : Node) : Type 0 where
  pub contexts : s'.mount_context ≡ GoMap.delete s.mount_context target
  pub mounts : mounted s'.trace ≡ mounted s.trace
  pub unmounts :
      let o = get s.mount_context target in
      unmounted s'.trace ≡ mount_ids o (point_of o) ++ unmounted s.trace
  pub cleanups : cleaned s'.trace ≡ target ∷ cleaned s.trace
  pub gone :
      (n : Text) (mc : MountContext) (p : MountPoint)
      → get s.mount_context target ≡ some mc
      → mc.mount_point ≡ some p
      → live s'.trace n ≡ true
      → has mc.remotes n ≡ false

-- No context has changed, and no mount was asked to unmount and no path to be cleaned up but
-- the target's.
pub record IsStill (target : Text) (s s' : Node) : Type 0 where
  pub contexts : s'.mount_context ≡ s.mount_context
  pub mounts : mounted s'.trace ≡ mounted s.trace
  pub unmounts :
      let o = get s.mount_context target in
      (unmounted s'.trace ≡ unmounted s.trace)
      ⊎ (unmounted s'.trace ≡ mount_ids o (point_of o) ++ unmounted s.trace)
  pub cleanups :
      (cleaned s'.trace ≡ cleaned s.trace) ⊎ (cleaned s'.trace ≡ target ∷ cleaned s.trace)

abbrev Handled : Text → Node → Result Status (Unit {0}) × Node → Type 0
Handled target s = Outcome (λ _. IsUnpublished target s) (IsStill target s)

forgotten :
    (env : Env) (target : Text) (s : Node) (r : Result Status (Unit {0}) × Node)
    → let o = get s.mount_context target in
      let ids = mount_ids o (point_of o) in
      let asked = mounted s.trace in
      let dropped = unmounted s.trace in
      let swept = cleaned s.trace in
      Outcome
        (λ _. Swept env s.mount_context asked dropped swept target ids)
        (Maybe env s.mount_context asked dropped swept target ids)
        r
      → ((n : Text) (mc : MountContext) (p : MountPoint)
          → get s.mount_context target ≡ some mc
          → mc.mount_point ≡ some p
          → Post (Gone mc.remotes n) r)
      → Handled target s (continue r (λ _. delete_mount_context target))
unfolding delete_mount_context
forgotten env target s (ok a, t) h g = record {
  contexts = ap (λ m. GoMap.delete m target) h.same;
  mounts = h.mounts;
  unmounts = h.unmounts;
  cleanups = h.cleanups;
  gone = g;
}
forgotten env target s (err e, t) (inl h) g = record {
  contexts = h.same;
  mounts = h.mounts;
  unmounts = inl h.unmounts;
  cleanups = inl h.cleanups;
}
forgotten env target s (err e, t) (inr (inl h)) g = record {
  contexts = h.same;
  mounts = h.mounts;
  unmounts = inr h.unmounts;
  cleanups = inl h.cleanups;
}
forgotten env target s (err e, t) (inr (inr h)) g = record {
  contexts = h.same;
  mounts = h.mounts;
  unmounts = inr h.unmounts;
  cleanups = inr h.cleanups;
}

body_lem : (env : Env) (target : Text) (s : Node) → Handled target s (unpublish_body env target s)
unfolding unpublish_body
body_lem env target s =
    forgotten env target s (unmount_target env target s)
      (target_lem env s.mount_context (mounted s.trace) (unmounted s.trace) (cleaned s.trace) target
        s (record { same = refl; mounts = refl; unmounts = refl; cleanups = refl }))
      (λ n mc p e f. target-Gone n env target s e f)

-- The state with other locks.
abbrev Relocked : Node → Node → Type 0
Relocked s t = (vl : VolumeLocks) × (t ≡ record s { volume_locks = vl })

relocked_lem :
    (env : Env) (target : Text) (s t : Node)
    → Relocked s t
    → Handled target s (unpublish_body env target t)
relocked_lem env target s t (vl, e) =
    let s' = record s { volume_locks = vl } in
    subst (λ x. Handled target s (unpublish_body env target x)) (sym e)
      (Outcome-weaken _ _ (λ _. IsUnpublished target s') (IsStill target s')
        (unpublish_body env target s') (body_lem env target s')
        (λ a u h. record {
          contexts = h.contexts;
          mounts = h.mounts;
          unmounts = h.unmounts;
          cleanups = h.cleanups;
          gone = h.gone;
        })
        (λ u h. record {
          contexts = h.contexts;
          mounts = h.mounts;
          unmounts = h.unmounts;
          cleanups = h.cleanups;
        }))

-- An unpublish request that succeeds has asked rclone once to unmount the mount of the target's context,
-- if it has a mount point, and to unmount no other, and has asked the mounter once to clean up the target
-- path, and no other; it forgets that context and no other, and, where the context has a mount point, no
-- section of its remotes stands in rclone's config. One that fails leaves all contexts as they are, and
-- has asked for no unmount and no clean-up but those. Neither asks for a mount.
pub node_unpublish_volume_lem :
    (env : Env) (req : NodeUnpublishVolumeRequest) (s : Node)
    → Outcome
        (λ _. IsUnpublished req.target_path s)
        (IsStill req.target_path s)
        (node_unpublish_volume env req s)
unfolding node_unpublish_volume
node_unpublish_volume_lem env req s = go (validate_unpublish_volume_request req)
  where
    target : Text
    target = req.target_path

    still : (t : Node) → Relocked s t → IsStill target s t
    still t (vl, e) = record {
      contexts = ap (λ x. x.mount_context) e;
      mounts = ap (λ x. mounted x.trace) e;
      unmounts = inl (ap (λ x. unmounted x.trace) e);
      cleanups = inl (ap (λ x. cleaned x.trace) e);
    }

    go :
        (r : Result Status (Unit {0}))
        → Handled target s (
            continue
              (r, s)
              (λ _.
                with_volume_lock req.volume_id req.target_path
                  (unpublish_body env req.target_path)))
    go (err x) = still s (s.volume_locks, refl)
    go (ok a) =
        locked_lem (Relocked s) (IsUnpublished target s) (IsStill target s) still
          (λ vl t (w, e). (vl, ap (λ (x : Node). record x { volume_locks = vl }) e))
          (λ vl t h. record {
            contexts = h.contexts;
            mounts = h.mounts;
            unmounts = h.unmounts;
            cleanups = h.cleanups;
            gone = h.gone;
          })
          (λ vl t h. record {
            contexts = h.contexts;
            mounts = h.mounts;
            unmounts = h.unmounts;
            cleanups = h.cleanups;
          })
          req.volume_id target (unpublish_body env target) (relocked_lem env target s) s
          (s.volume_locks, refl)
