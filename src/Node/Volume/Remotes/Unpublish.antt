-- ===== src/Node/Volume/Remotes/Unpublish.antt =====
-- Unpublishing keeps every section of the config with an owner.
use csi_driver_rclone.Prelude.{
  ◌≡◌, refl, sym, subst, ◌∙◌, arith, true, false, Option, none, some, List, [], ◌∷◌, ltb, length,
  if◌then◌else◌, Result, ok, err, Bool-cases, inl, inr, false≢true, ◌++◌,
}
use csi_driver_rclone.Text.{Text, text_eq, codes}
use csi_driver_rclone.Text.Eq.{text_eq_iff}
use csi_driver_rclone.GoMap
use csi_driver_rclone.GoMap.{GoMap, get}
use csi_driver_rclone.GoMap.Laws.{get-delete}
use csi_driver_rclone.Locks.{has, VolumeLocks}
use csi_driver_rclone.Status.{Status, internal, with_code, Code}
use csi_driver_rclone.Csi.{NodeUnpublishVolumeRequest}
use csi_driver_rclone.Node.Calls.{
  Env, Node, MountContext, MountPoint, delete_section, unmount_mount_point,
}
use csi_driver_rclone.Node.Monad.{M, continue, pure, ignored, perform}
use csi_driver_rclone.Node.Keeps.{Keeps-if, Keeps-perform, Triple, Triple-bind, Keeps-Triple, Post}
use csi_driver_rclone.Node.Effects.{live}
use csi_driver_rclone.Node.Sync.{wait_for_vfs_cache_sync}
use csi_driver_rclone.Node.Config.{delete_sections}
use csi_driver_rclone.Node.Config.Laws.{live-delete_sections}
use csi_driver_rclone.Node.Volume.{
  cancel_given, need_vfs, unmount_point, unmount_context, unmount_volume, unmount_target,
  unpublish_body, point_of, get_mount_context, delete_mount_context, node_unpublish_volume,
  validate_unpublish_volume_request, with_volume_lock,
}
use csi_driver_rclone.Node.Volume.Unpublish.{Lasting, target-Keeps}
use csi_driver_rclone.Node.Volume.Remotes.{
  Owner, IsOwned, Within, Within-Calm, Within-IsOwned, Post-state, under_lock,
}

deleted_below :
    (n m : Text) (s : Node) → live (delete_section m ∷ s.trace) n ≡ true → live s.trace n ≡ true
deleted_below n m s l = ground (arith, l)

Within-Lasting :
    (contexts : GoMap MountContext) (n : Text) (W : Type 0) → Lasting (Within contexts n W)
Within-Lasting contexts n W = record {
  calm = Within-Calm contexts n W;
  deleting = λ m. record {
    after = λ s h. record { standing = λ l. h.standing (deleted_below n m s l); same = h.same };
  };
  unmounting = λ i. record { after = λ s h. record { standing = h.standing; same = h.same } };
  cleaning = λ p. record { after = λ s h. record { standing = h.standing; same = h.same } };
  forcing = λ p k. record { after = λ s h. record { standing = h.standing; same = h.same } };
}

-- Nothing is said.
abbrev Anything : Node → Type 0
Anything s = Unit

anything : {E A : Type 0} (m : M E A) → Triple Anything m Anything
anything m = record { run = λ s h. Post-state Anything (m s) tt }

-- No section of the list stands.
abbrev pub Gone : List Text → Text → Node → Type 0
Gone remotes n s = live s.trace n ≡ true → has remotes n ≡ false

module _ (n : Text) where
  delete-Gone :
      (E : Type 0) (remotes : List Text)
      → Triple Anything (delete_sections {E = E} remotes) (Gone remotes n)
  delete-Gone E remotes = record {
    run = λ s h.
        Post-state (Gone remotes n) (delete_sections {E = E} remotes s)
          (λ l. ground (arith, live-delete_sections E remotes s n, l));
  }

  pub sections-Gone :
      (E : Type 0) (remotes : List Text) (s : Node)
      → Post
          (Gone remotes n)
          ((if ltb 0 (length remotes) then delete_sections {E = E} remotes else pure tt) s)
  unfolding has
  sections-Gone E [] s = λ l. refl
  sections-Gone E (m ∷ remotes) s =
      let e : ltb 0 (length (m ∷ remotes)) ≡ true = ground arith in
      rw e ((delete-Gone E (m ∷ remotes)).run s tt)

  point-Gone :
      (env : Env) (mc : MountContext) (p : MountPoint)
      → Triple Anything (unmount_point env mc p) (Gone mc.remotes n)
  unfolding unmount_point
  point-Gone env mc p =
      let unmounted : M Text Unit =
        ignored (perform (unmount_mount_point p.id) (λ t. env.on_unmount_mount_point t p.id)) in
      Triple-bind {Q = Anything} (need_vfs p) _ (anything _) (λ _.
        Triple-bind {Q = Anything} (wait_for_vfs_cache_sync env p) _ (anything _) (λ _.
          Triple-bind {Q = Anything} unmounted _ (anything _) (λ _.
            Triple-bind {Q = Anything} (cancel_given mc.cancel_func) _ (anything _)
              (λ _. record { run = λ s h. sections-Gone Text mc.remotes s }))))

  context-Gone :
      (env : Env) (o : Option MountContext) (q : Option MountPoint) {mc : MountContext}
      {p : MountPoint}
      → o ≡ some mc
      → q ≡ some p
      → Triple Anything (unmount_context env o q) (Gone mc.remotes n)
  context-Gone env (some m) (some q) {mc} e f =
      let e' : m ≡ mc = cc in
      subst (λ x. Triple Anything (unmount_point env m q) (Gone x.remotes n)) e'
        (point-Gone env m q)
  context-Gone env (some m) none e f = absurd (cc)
  context-Gone env none q e f = absurd (cc)

  volume-Gone :
      (env : Env) (o : Option MountContext) (target : Text) {mc : MountContext} {p : MountPoint}
      → o ≡ some mc
      → point_of o ≡ some p
      → Triple Anything (unmount_volume env o target) (Gone mc.remotes n)
  unfolding unmount_volume
  volume-Gone env o target {mc} e f =
      Triple-bind {Q = Gone mc.remotes n} _ _ (context-Gone env o (point_of o) e f) (λ _.
        Keeps-Triple _ (
          Keeps-if env.force_unmounter _ _ (Keeps-perform _ _ (record { after = λ s h. h }))
            (Keeps-perform _ _ (record { after = λ s h. h }))))

  wrapped-Gone :
      (remotes : List Text) (c : Code) (p : Text) (r : Result Text (Unit {0}) × Node)
      → Post (Gone remotes n) r
      → Post (Gone remotes n) (with_code c p r.0, r.1)
  wrapped-Gone remotes c p (ok a, s) h = h
  wrapped-Gone remotes c p (err e, s) h = tt

  pub target-Gone :
      (env : Env) (target : Text) (s : Node) {mc : MountContext} {p : MountPoint}
      → get s.mount_context target ≡ some mc
      → mc.mount_point ≡ some p
      → Post (Gone mc.remotes n) (unmount_target env target s)
  unfolding unmount_target get_mount_context
  target-Gone env target s {mc} {p} e f =
      wrapped-Gone mc.remotes internal
        (codes "failed to unmount target \"" ++ (target ++ codes "\": "))
        (unmount_volume env (get s.mount_context target) target s)
        ((volume-Gone env (get s.mount_context target) target {mc = mc} {p = p} e (rw e f)).run s
          tt)

-- The context of the target is forgotten only where its sections are gone.
forgotten :
    (target : Text) (contexts : GoMap MountContext) (r : Result Status (Unit {0}) × Node)
    → ((n : Text) → Within contexts n (Owner contexts n) r.1)
    → ((n : Text) (mc : MountContext) → get contexts target ≡ some mc → Post (Gone mc.remotes n) r)
    → ((t : Text) (mc : MountContext)
        → get contexts t ≡ some mc
        → (p : MountPoint) × (mc.mount_point ≡ some p))
    → IsOwned (continue r (λ _. delete_mount_context target)).1
unfolding delete_mount_context
forgotten target contexts (err e, s) kept gone points = Within-IsOwned contexts s kept points
forgotten target contexts (ok a, s) kept gone points = record {
  owners = λ n l. other n l ((kept n).standing l);
  points = λ t mc e. points t mc (left t mc (rw (← (kept []).same) e));
}
  where
    left :
        (t : Text) (mc : MountContext)
        → get (GoMap.delete contexts target) t ≡ some mc
        → get contexts t ≡ some mc
    left t mc e = elim (Bool-cases (text_eq target t)) [
      | inl y ↦ absurd (ground (arith, get-delete contexts target t))
      | inr d ↦ ground (arith, get-delete contexts target t)
    ]

    other :
        (n : Text)
        → live s.trace n ≡ true
        → Owner contexts n
        → Owner (GoMap.delete s.mount_context target) n
    other n l (t, mc, e, o) = elim (Bool-cases (text_eq target t)) [
      | inl y ↦ absurd (false≢true (sym (gone n mc (rw ((text_eq_iff target t).0 y) e) l) ∙ o))
      | inr d ↦ (t, mc, rw ((kept []).same, get-delete, d) e, o)
    ]

body-IsOwned :
    (env : Env) (target : Text) (s : Node) → IsOwned s → IsOwned (unpublish_body env target s).1
unfolding unpublish_body
body-IsOwned env target s h =
    forgotten target s.mount_context (unmount_target env target s)
      (λ n.
        (target-Keeps (Within-Lasting s.mount_context n (Owner s.mount_context n)) env target).at s
          (record { standing = h.owners n; same = refl }))
      (λ n mc e. target-Gone n env target s e (h.points target mc e).1) h.points

locked-IsOwned :
    (vl : VolumeLocks) (s : Node) → IsOwned s → IsOwned (record s { volume_locks = vl })
locked-IsOwned vl s h = record { owners = h.owners; points = h.points }

request-IsOwned :
    (env : Env) (req : NodeUnpublishVolumeRequest) (valid : Result Status (Unit {0})) (s : Node)
    → IsOwned s
    → IsOwned
        (continue
          (valid, s)
          (λ _.
            with_volume_lock req.volume_id req.target_path (unpublish_body env req.target_path))).1
request-IsOwned env req (ok _) s h =
    under_lock IsOwned IsOwned (λ t g. g) locked-IsOwned locked-IsOwned req.volume_id
      req.target_path (unpublish_body env req.target_path) (body-IsOwned env req.target_path) s h
request-IsOwned env req (err e) s h = h

-- An unpublish request keeps every section of the config with an owner, and every context with a
-- mount point, whether it succeeds, fails or is refused.
pub node_unpublish_volume-IsOwned :
    (env : Env) (req : NodeUnpublishVolumeRequest) (s : Node)
    → IsOwned s
    → IsOwned (node_unpublish_volume env req s).1
unfolding node_unpublish_volume
node_unpublish_volume-IsOwned env req s h =
    request-IsOwned env req (validate_unpublish_volume_request req) s h
