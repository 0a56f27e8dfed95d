-- ===== src/Node/Workers/Unmounting.antt =====
-- What the unmounting of a worker keeps.
use csi_driver_rclone.Prelude.{ltb, length}
use csi_driver_rclone.Text.{Text}
use csi_driver_rclone.Node.Calls.{Env, Node, MountContext, MountPoint}
use csi_driver_rclone.Node.Keeps.{
  Keeps, Keeps-bind, Keeps-if, Keeps-ignored, Keeps-perform, Keeps-pure,
}
use csi_driver_rclone.Node.Config.Laws.{delete-Keeps}
use csi_driver_rclone.Node.Sync.Bounds.{wait-Keeps}
use csi_driver_rclone.Node.Volume.Unpublish.{Lasting, cancel-Keeps, vfs-Keeps}
use csi_driver_rclone.Node.Workers.{unmount_calls, cleanup_call}
use csi_driver_rclone.Node.Workers.Parts.{deletes}

module _ {ℓ} {P : Node → Type ℓ} (l : Lasting P) (env : Env) where
  pub calls-Keeps : (mc : MountContext) (q : MountPoint) → Keeps P (unmount_calls env mc q)
  calls-Keeps mc q = Keeps-bind _ _ (vfs-Keeps l env q) (λ _.
      Keeps-bind _ _ (wait-Keeps l.calm Text env q) (λ _.
        Keeps-bind _ _ (Keeps-ignored _ (Keeps-perform _ _ (l.unmounting q.id)))
          (λ _. cancel-Keeps l env mc.cancel_func)))

  pub cleanup-Keeps : (target : Text) → Keeps P (cleanup_call env target)
  cleanup-Keeps target =
      Keeps-if env.force_unmounter _ _ (Keeps-perform _ _ (l.forcing target 30))
        (Keeps-perform _ _ (l.cleaning target))

pub deletes-Keeps {ℓ} : {P : Node → Type ℓ} → Lasting P → (mc : MountContext) → Keeps P (deletes mc)
deletes-Keeps l mc =
    Keeps-if (ltb 0 (length mc.remotes)) _ _ (delete-Keeps mc.remotes l.deleting) (Keeps-pure tt)
