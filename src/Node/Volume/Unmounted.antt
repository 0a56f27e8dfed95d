-- ===== src/Node/Volume/Unmounted.antt =====
-- The unmounting of a volume: what it asks for, and what it leaves as it is.
use csi_driver_rclone.Prelude.{
  ℕ, ◌≡◌, refl, ap, subst, ◌⊎◌, inl, inr, Option, none, some, List, [], ◌∷◌, ◌++◌, Result, ok, err,
  ltb, length, if◌then◌else◌, Bool-cases,
}
use csi_driver_rclone.Text.{Text, codes}
use csi_driver_rclone.GoMap.{GoMap, get}
use csi_driver_rclone.Status.{internal, with_code, Code}
use csi_driver_rclone.Node.Calls.{
  Env, Node, MountContext, MountPoint, cancel, cleanup_mount_point, cleanup_mount_with_force,
}
use csi_driver_rclone.Node.Monad.{perform}
use csi_driver_rclone.Node.Keeps.{Keeps, Keeps-bind, Keeps-if, Keeps-tell, Keeps-pure, Keeps-raise}
use csi_driver_rclone.Node.Outcome.{Outcome, Outcome-Keeps, Outcome-bind}
use csi_driver_rclone.Node.Effects.{
  Calm, mounted, mounted-Calm, unmounted, unmounted-Calm, cleaned, cleaned-Calm,
}
use csi_driver_rclone.Node.Config.{delete_sections}
use csi_driver_rclone.Node.Config.Laws.{delete-Keeps}
use csi_driver_rclone.Node.Sync.{wait_for_vfs_cache_sync}
use csi_driver_rclone.Node.Sync.Bounds.{wait-Keeps}
use csi_driver_rclone.Node.Volume.{
  cancel_given, need_vfs, unmount_point, unmount_context, unmount_volume, unmount_target, point_of,
  get_mount_context,
}

-- The number of the mount that a context has.
abbrev pub mount_ids : Option MountContext → Option MountPoint → List ℕ
mount_ids none q = []
mount_ids (some mc) none = []
mount_ids (some mc) (some p) = p.id ∷ []

pub mount_ids-some :
    (o : Option MountContext) {mc : MountContext} {p : MountPoint}
    → o ≡ some mc
    → mc.mount_point ≡ some p
    → mount_ids o (point_of o) ≡ p.id ∷ []
mount_ids-some (some m) {mc} {p} e f =
    let e' : mc ≡ m = cc in subst (λ x. mount_ids (some x) x.mount_point ≡ p.id ∷ []) e' (rw f refl)
mount_ids-some none e f = absurd (cc)

-- The contexts are `contexts`, these mounts were asked for, these were asked to unmount, and these paths
-- to be cleaned up.
pub record Stands (contexts : GoMap MountContext) (asked : List (Text × Text)) (dropped : List ℕ)
    (swept : List Text) (s : Node) : Type 0 where
  pub same : s.mount_context ≡ contexts
  pub mounts : mounted s.trace ≡ asked
  pub unmounts : unmounted s.trace ≡ dropped
  pub cleanups : cleaned s.trace ≡ swept

Stands-Calm :
    (contexts : GoMap MountContext) (asked : List (Text × Text)) (dropped : List ℕ)
    (swept : List Text)
    → Calm (Stands contexts asked dropped swept)
Stands-Calm contexts asked dropped swept = record {
  quiet = λ c q. record {
    after = λ s h. record {
      same = h.same;
      mounts = ((mounted-Calm (λ l. l ≡ asked)).quiet c q).after s h.mounts;
      unmounts = ((unmounted-Calm (λ l. l ≡ dropped)).quiet c q).after s h.unmounts;
      cleanups = ((cleaned-Calm (λ l. l ≡ swept)).quiet c q).after s h.cleanups;
    };
  };
}

module _ (env : Env) (contexts : GoMap MountContext) (asked : List (Text × Text)) (dropped : List ℕ)
    (swept : List Text) where
  -- After the numbers of `ids` were asked to unmount.
  abbrev pub Dropped : List ℕ → Node → Type 0
  Dropped ids = Stands contexts asked (ids ++ dropped) swept

  -- And the target to be cleaned up.
  abbrev pub Swept : Text → List ℕ → Node → Type 0
  Swept target ids = Stands contexts asked (ids ++ dropped) (target ∷ swept)

  abbrev pub Maybe : Text → List ℕ → Node → Type 0
  Maybe target ids s = Dropped [] s ⊎ (Dropped ids s ⊎ Swept target ids s)

  cancel_quiet :
      {E : Type 0} (ids : List ℕ) (o : Option ℕ) → Keeps (Dropped ids) (cancel_given {E = E} o)
  cancel_quiet ids none = Keeps-pure tt
  cancel_quiet ids (some ctx) =
      Keeps-tell _ ((Stands-Calm contexts asked (ids ++ dropped) swept).quiet (cancel ctx) refl)

  delete_quiet :
      {E : Type 0} (ids : List ℕ) (remotes : List Text)
      → Keeps (Dropped ids) (delete_sections {E = E} remotes)
  delete_quiet ids remotes = delete-Keeps remotes (λ n. record {
    after = λ s h. record {
      same = h.same;
      mounts = h.mounts;
      unmounts = h.unmounts;
      cleanups = h.cleanups;
    };
  })

  point_lem :
      (target : Text) (mc : MountContext) (p : MountPoint) (s : Node)
      → Dropped [] s
      → Outcome (λ _. Dropped (p.id ∷ [])) (Maybe target (p.id ∷ [])) (unmount_point env mc p s)
  unfolding unmount_point perform
  point_lem target mc p s h =
      let ids : List ℕ = p.id ∷ [] in
      Outcome-bind (λ _. Dropped ids) (Maybe target ids) (λ _. Dropped []) (need_vfs p s) _
        (Outcome-Keeps (Dropped []) (Maybe target ids) (need_vfs p) s
          (Keeps-if p.vfs _ _ (Keeps-pure tt) (Keeps-raise _)) h (λ t g. inl g))
        (λ b u k.
          Outcome-bind (λ _. Dropped ids) (Maybe target ids) (λ _. Dropped [])
            (wait_for_vfs_cache_sync {E = Text} env p u) _
            (Outcome-Keeps (Dropped []) (Maybe target ids)
              (wait_for_vfs_cache_sync {E = Text} env p) u
              (wait-Keeps (Stands-Calm contexts asked dropped swept) Text env p) k (λ t g. inl g))
            (λ a t g.
              Outcome-Keeps (Dropped ids) (Maybe target ids) _ _
                (Keeps-bind (cancel_given mc.cancel_func) _ (cancel_quiet ids mc.cancel_func) (λ b.
                  Keeps-if (ltb 0 (length mc.remotes)) _ _ (delete_quiet ids mc.remotes)
                    (Keeps-pure tt)))
                (record {
                  same = g.same;
                  mounts = g.mounts;
                  unmounts = ap (λ l. p.id ∷ l) g.unmounts;
                  cleanups = g.cleanups;
                })
                (λ v l. inr (inl l))))

  context_lem :
      (target : Text) (o : Option MountContext) (q : Option MountPoint) (s : Node)
      → Dropped [] s
      → Outcome
          (λ _. Dropped (mount_ids o q))
          (Maybe target (mount_ids o q))
          (unmount_context env o q s)
  context_lem target (some mc) (some p) s h = point_lem target mc p s h
  context_lem target (some mc) none s h = h
  context_lem target none q s h = h

  -- Whatever the answer is.
  answered_lem :
      (target : Text) (ids : List ℕ) (r : Result Text (Unit {0})) (s : Node)
      → Swept target ids s
      → Outcome (λ _. Swept target ids) (Maybe target ids) (r, s)
  answered_lem target ids (ok a) s h = h
  answered_lem target ids (err e) s h = inr (inr h)

  swept_lem :
      (target : Text) (ids : List ℕ) (s : Node)
      → Dropped ids s
      → Outcome
          (λ _. Swept target ids)
          (Maybe target ids)
          ((if env.force_unmounter
              then perform (cleanup_mount_with_force target 30) (λ t. env.on_cleanup t target)
              else perform (cleanup_mount_point target) (λ t. env.on_cleanup t target))
            s)
  unfolding perform
  swept_lem target ids s h = elim (Bool-cases env.force_unmounter) [
    | inl e ↦ rw e (
        answered_lem target ids (env.on_cleanup s.trace target) _ (record {
          same = h.same;
          mounts = h.mounts;
          unmounts = h.unmounts;
          cleanups = ap (λ l. target ∷ l) h.cleanups;
        }))
    | inr e ↦ rw e (
        answered_lem target ids (env.on_cleanup s.trace target) _ (record {
          same = h.same;
          mounts = h.mounts;
          unmounts = h.unmounts;
          cleanups = ap (λ l. target ∷ l) h.cleanups;
        }))
  ]

  volume_lem :
      (o : Option MountContext) (target : Text) (s : Node)
      → Dropped [] s
      → Outcome
          (λ _. Swept target (mount_ids o (point_of o)))
          (Maybe target (mount_ids o (point_of o)))
          (unmount_volume env o target s)
  unfolding unmount_volume
  volume_lem o target s h =
      let ids = mount_ids o (point_of o) in
      Outcome-bind (λ _. Swept target ids) (Maybe target ids) (λ _. Dropped ids) _ _
        (context_lem target o (point_of o) s h) (λ a t g. swept_lem target ids t g)

  wrapped_lem :
      (target : Text) (ids : List ℕ) (c : Code) (text : Text) (r : Result Text (Unit {0}) × Node)
      → Outcome (λ _. Swept target ids) (Maybe target ids) r
      → Outcome (λ _. Swept target ids) (Maybe target ids) (with_code c text r.0, r.1)
  wrapped_lem target ids c text (ok a, s) h = h
  wrapped_lem target ids c text (err e, s) h = h

  pub target_lem :
      (target : Text) (s : Node)
      → Dropped [] s
      → let o = get s.mount_context target in
        Outcome
          (λ _. Swept target (mount_ids o (point_of o)))
          (Maybe target (mount_ids o (point_of o)))
          (unmount_target env target s)
  unfolding unmount_target get_mount_context
  target_lem target s h =
      let o = get s.mount_context target in
      wrapped_lem target (mount_ids o (point_of o)) internal
        (codes "failed to unmount target \"" ++ (target ++ codes "\": "))
        (unmount_volume env o target s) (volume_lem o target s h)
