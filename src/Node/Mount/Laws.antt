-- ===== src/Node/Mount/Laws.antt =====
-- What `createAndMountFilesystem` does to the state: quiet calls, and one mount.
use csi_driver_rclone.Prelude.{ℕ, Bool, refl, Option, none, some, List, length}
use csi_driver_rclone.Text.{Text}
use csi_driver_rclone.GoMap.{Params}
use csi_driver_rclone.Node.Calls.{Env, Node, mount, MountOptions}
use csi_driver_rclone.Node.Monad.{M}
use csi_driver_rclone.Node.Keeps.{
  Keeps, keeps_rules, Keeps-bind, Keeps-or_clean, Keeps-if, Keeps-tell, Keeps-pure, Stable,
}
use csi_driver_rclone.Node.Effects.{Calm}
use csi_driver_rclone.Node.Mount.{
  if_given, set_rclone_config_flags, wait_for_daemon, handle_rclone_daemon, start_mount,
  mount_steps, plan_mount, mount_fs, create_and_mount_filesystem,
}

module _ {ℓ} {P : Node → Type ℓ} (calm : Calm P) where
  if_given-Keeps :
      {E : Type 0} (o : Option Text) (f : Text → M E (Unit {0}))
      → ((v : Text) → Keeps P (f v))
      → Keeps P (if_given o f)
  if_given-Keeps none f k = record { at = λ s h. h }
  if_given-Keeps (some v) f k = k v

  pub flags-Keeps : (env : Env) (params : Params) → Keeps P (set_rclone_config_flags env params)
  unfolding set_rclone_config_flags
  flags-Keeps env params = search (keeps_rules, calm.quiet, if_given-Keeps) depth 9

  wait-Keeps :
      (env : Env) (target : Text) (opts : MountOptions) (ctx : ℕ) (daemon : Bool)
      → Keeps P (wait_for_daemon env target opts ctx daemon)
  unfolding wait_for_daemon
  wait-Keeps env target opts ctx daemon = search (keeps_rules, calm.quiet) depth 12

  pub daemon-Keeps :
      (env : Env) (target : Text) (opts : MountOptions) (ctx : ℕ) (daemon : Bool)
      → Keeps P (handle_rclone_daemon env target opts ctx daemon)
  unfolding handle_rclone_daemon
  daemon-Keeps env target opts ctx daemon = search (keeps_rules, calm.quiet, wait-Keeps) depth 9

  pub plan-Keeps :
      (env : Env) (fs_path : Text) (options : List Text) (params : Params)
      → Keeps P (plan_mount env fs_path options params)
  unfolding plan_mount
  plan-Keeps env fs_path options params = search (keeps_rules, calm.quiet, flags-Keeps) depth 20

  module _
      (mounting : (method target fs_path : Text) → Stable P (mount method target fs_path)) where
    fs-Keeps :
        (env : Env) (method target fs_path : Text) → Keeps P (mount_fs env method target fs_path)
    unfolding mount_fs
    fs-Keeps env method target fs_path = search (keeps_rules, mounting)

    start_mount-Keeps :
        (env : Env) (fs_path target : Text) (options : List Text) (params : Params)
        → Keeps P (start_mount env fs_path target options params)
    start_mount-Keeps env fs_path target options params =
        Keeps-bind _ _ (plan-Keeps env fs_path options params)
          (λ plan. Keeps-bind _ _ (fs-Keeps env plan.method target fs_path) (λ made. Keeps-pure _))

    steps-Keeps :
        (env : Env) (fs_path target : Text) (options : List Text) (params : Params) (ctx : ℕ)
        → Keeps P (mount_steps env fs_path target options params ctx)
    unfolding mount_steps
    steps-Keeps env fs_path target options params ctx =
        Keeps-bind _ _
          (Keeps-or_clean _ _ (start_mount-Keeps env fs_path target options params)
            (Keeps-tell _ (calm.quiet _ refl)))
          (λ x.
            Keeps-bind _ _
              (Keeps-or_clean _ _ (daemon-Keeps env target x.0.mount_opt ctx x.1.daemon)
                (Keeps-if x.1.daemon _ _ (Keeps-tell _ (calm.quiet _ refl)) (Keeps-pure tt)))
              (λ _. Keeps-pure _))

    -- A property that quiet calls and a mount leave alone is kept.
    pub create-Keeps :
        (env : Env) (fs_path target : Text) (options : List Text) (params : Params)
        → Keeps P (create_and_mount_filesystem env fs_path target options params)
    unfolding create_and_mount_filesystem
    create-Keeps env fs_path target options params = record {
      at = λ s h.
          (Keeps-bind _ _ (steps-Keeps env fs_path target options params (length s.trace))
              (λ a. Keeps-pure _)).at
            s h;
    }
