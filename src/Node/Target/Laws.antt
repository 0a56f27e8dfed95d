-- ===== src/Node/Target/Laws.antt =====
-- What `prepareTargetDirectory` does to the state: quiet calls, whatever the answers.
use csi_driver_rclone.Prelude.{refl, Bool, true, false, some, Result, ok, err, Bool-cases, inl, inr}
use csi_driver_rclone.Text.{Text}
use csi_driver_rclone.Status.{Status}
use csi_driver_rclone.Node.Calls.{Env, Node, PathError, is_likely_not_mount_point, mkdir_all}
use csi_driver_rclone.Node.Monad.{continue, ◌>>=◌, pure}
use csi_driver_rclone.Node.Keeps.{Keeps, keeps_rules, called}
use csi_driver_rclone.Node.Effects.{Calm}
use csi_driver_rclone.Node.Target.{ensure_directory, finish_target, prepare_target_directory}

module _ {ℓ} {P : Node → Type ℓ} (calm : Calm P) (env : Env) (path : Text) where
  tail-Keeps : Keeps P (finish_target env path (some true))
  unfolding finish_target
  tail-Keeps = search (keeps_rules, calm.quiet)

  -- The directory was made: what comes next is the tail for a target that is not mounted.
  made_keeps :
      (r : Result Status (Unit {0}) × Node)
      → P r.1
      → P (continue (continue r (λ _. pure (some true))) (finish_target env path)).1
  made_keeps (ok a, s) h = tail-Keeps.at s h
  made_keeps (err e, s) h = h

  -- The test hands on `none`, or `some true`: never a target that is mounted.
  after_probe :
      (likely : Result PathError Bool)
      → Keeps P (ensure_directory env path likely >>= finish_target env path)
  unfolding ensure_directory
  after_probe (ok true) = record { at = λ s h. tail-Keeps.at s h }
  after_probe (ok false) = unfold finish_target in record { at = λ s h. h }
  after_probe (err e) = elim (Bool-cases e.not_exist) [
    | inl y ↦
        rw y (record { at = λ s h. made_keeps _ ((calm.quiet (mkdir_all path) refl).after s h) })
    | inr n ↦ rw n (record { at = λ s h. h })
  ]

  -- `prepareTargetDirectory` makes none but quiet calls: what they keep, it keeps.
  pub prepare-Keeps : Keeps P (prepare_target_directory env path)
  unfolding prepare_target_directory
  prepare-Keeps = record {
    at = λ s h.
        (after_probe (env.on_is_likely_not_mount_point s.trace path)).at
          (called (is_likely_not_mount_point path) s)
          ((calm.quiet (is_likely_not_mount_point path) refl).after s h);
  }
