-- ===== src/Node/Volume/Published/Mounting.antt =====
-- `createAndMountFilesystem`, by the mount that it asks for.
use csi_driver_rclone.Prelude.{
  ℕ, ◌≡◌, refl, ap, true, ◌⊎◌, inl, inr, List, ◌∷◌, Bool, if◌then◌else◌, Result, ok, err, length,
}
use csi_driver_rclone.Text.{Text, codes}
use csi_driver_rclone.GoMap.{GoMap, Params}
use csi_driver_rclone.Status.{Status, with_code, internal}
use csi_driver_rclone.Node.Calls.{
  Env, Node, Trace, MountContext, MountPoint, MountOptions, Mounted, Call, mount, cancel,
}
use csi_driver_rclone.Node.Effects.{is_quiet}
use csi_driver_rclone.Node.Monad.{perform, tell, pure, or_clean}
use csi_driver_rclone.Node.Keeps.{called, Keeps, Keeps-or_clean, Keeps-if, Keeps-tell, Keeps-pure}
use csi_driver_rclone.Node.Outcome.{Outcome, Outcome-Keeps, Outcome-bind, Outcome-on_failure}
use csi_driver_rclone.Node.Config.{cleanup_config_remotes}
use csi_driver_rclone.Node.Mount.{
  mount_fs, start_mount, handle_rclone_daemon, mount_steps, create_and_mount_filesystem,
}
use csi_driver_rclone.Node.Mount.Laws.{plan-Keeps, daemon-Keeps}
use csi_driver_rclone.Node.Volume.Published.{At, At-Calm, OrIn}
use csi_driver_rclone.Node.Volume.Published.Load.{At-cleanup}

-- One mount of `fs_path` at `target`, with the contexts and the mounts before it.
module _ (env : Env) (target fs_path : Text) (contexts : GoMap MountContext)
    (asked : List (Text × Text)) where
  -- The mount was asked for, or was not.
  abbrev pub Tried : (Text → Type 0) → Node → Type 0
  Tried W s = At contexts asked W s ⊎ At contexts ((target, fs_path) ∷ asked) W s

  -- The mount was asked for, and this is a number that was answered.
  abbrev pub Answered : (Text → Type 0) → ℕ → Node → Type 0
  Answered W id s =
      At contexts ((target, fs_path) ∷ asked) W s
      × ((t : Trace) × (made : Mounted) × (env.on_mount t target ≡ ok made) × (made.id ≡ id))

  abbrev pub Made : (Text → Type 0) → MountPoint → Node → Type 0
  Made W p s = Answered W p.id s × (p.target ≡ target)

  module _ (W : Text → Type 0) where
    abbrev not_asked : (s : Node) → At contexts asked W s → Tried W s
    not_asked s h = inl h

    mount_fs_lem :
        (method : Text) (s : Node)
        → At contexts asked W s
        → Outcome (λ made. Answered W made.id) (Tried W) (mount_fs env method target fs_path s)
    unfolding mount_fs perform
    mount_fs_lem method s h = go (env.on_mount s.trace target) refl
      where
        go :
            (r : Result Text Mounted)
            → env.on_mount s.trace target ≡ r
            → Outcome
                (λ made. Answered W made.id)
                (Tried W)
                (
                  with_code internal (codes "failed to mount: ") r,
                  called (mount method target fs_path) s,
                )
        go (ok made) e = (
          record {
            same = h.same;
            mounts = ap (λ l. (target, fs_path) ∷ l) h.mounts;
            standing = h.standing;
          },
          (s.trace, made, e, refl),
        )
        go (err x) e = inr (record {
          same = h.same;
          mounts = ap (λ l. (target, fs_path) ∷ l) h.mounts;
          standing = h.standing;
        })

    started_lem :
        (options : List Text) (params : Params) (s : Node)
        → At contexts asked W s
        → Outcome
            (λ x. Answered W x.1.id)
            (Tried W)
            (start_mount env fs_path target options params s)
    started_lem options params s h =
        Outcome-bind (λ x. Answered W x.1.id) (Tried W) (λ _. At contexts asked W) _ _
          (Outcome-Keeps (At contexts asked W) (Tried W) _ s
            (plan-Keeps (At-Calm contexts asked W) env fs_path options params) h not_asked)
          (λ plan t g.
            Outcome-bind (λ x. Answered W x.1.id) (Tried W) (λ made. Answered W made.id) _ _
              (mount_fs_lem plan.method t g) (λ made u k. k))

    waited :
        (opts : MountOptions) (ctx : ℕ) (daemon : Bool)
        → Keeps (At contexts ((target, fs_path) ∷ asked) W) (
            or_clean
              (handle_rclone_daemon env target opts ctx daemon)
              (if daemon then tell (cancel ctx) else pure tt))
    waited opts ctx daemon =
        let calm = At-Calm contexts ((target, fs_path) ∷ asked) W in
        Keeps-or_clean _ _ (daemon-Keeps calm env target opts ctx daemon)
          (Keeps-if daemon _ _ (Keeps-tell _ (calm.quiet _ refl)) (Keeps-pure tt))

    Tried-quiet : (c : Call) (s : Node) → is_quiet c ≡ true → Tried W s → Tried W (called c s)
    Tried-quiet c s q (inl h) = inl (((At-Calm contexts asked W).quiet c q).after s h)
    Tried-quiet c s q (inr h) =
        inr (((At-Calm contexts ((target, fs_path) ∷ asked) W).quiet c q).after s h)

    steps_lem :
        (options : List Text) (params : Params) (ctx : ℕ) (s : Node)
        → At contexts asked W s
        → Outcome (Made W) (Tried W) (mount_steps env fs_path target options params ctx s)
    unfolding mount_steps tell
    steps_lem options params ctx s h =
        Outcome-bind (Made W) (Tried W) (λ x. Answered W x.1.id) _ _
          (Outcome-on_failure (λ x. Answered W x.1.id) (Tried W) (Tried W)
            (start_mount env fs_path target options params s) _ (started_lem options params s h)
            (λ t g. Tried-quiet (cancel ctx) t refl g))
          (λ x u (after, answer).
            Outcome-bind (Made W) (Tried W) (λ _. At contexts ((target, fs_path) ∷ asked) W) _ _
              (Outcome-Keeps (At contexts ((target, fs_path) ∷ asked) W) (Tried W) _ u
                (waited x.0.mount_opt ctx x.1.daemon) after (λ v k. inr k))
              (λ _ v k. ((k, answer), refl)))

    pub create_lem :
        (options : List Text) (params : Params) (s : Node)
        → At contexts asked W s
        → Outcome
            (λ x. Made W x.0)
            (Tried W)
            (create_and_mount_filesystem env fs_path target options params s)
    unfolding create_and_mount_filesystem tell
    create_lem options params s h =
        Outcome-bind (λ x. Made W x.0) (Tried W) (Made W) _ _
          (steps_lem options params (length s.trace) s h) (λ p t g. g)

  pub Tried-cleanup :
      (W : Text → Type 0) (remotes : List Text) (s : Node)
      → Tried (OrIn W remotes) s
      → Tried W (cleanup_config_remotes {E = Status} remotes s).1
  Tried-cleanup W remotes s (inl h) = inl (At-cleanup contexts asked W remotes s h)
  Tried-cleanup W remotes s (inr h) =
      inr (At-cleanup contexts ((target, fs_path) ∷ asked) W remotes s h)
