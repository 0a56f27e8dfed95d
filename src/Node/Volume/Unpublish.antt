-- ===== src/Node/Volume/Unpublish.antt =====
-- What an unpublish request does, whatever the answers of the environment.
use csi_driver_rclone.Prelude.{ℕ, refl, Option, none, some, ltb, length}
use csi_driver_rclone.Text.{Text}
use csi_driver_rclone.GoMap.{GoMap}
use csi_driver_rclone.Status.{Status}
use csi_driver_rclone.Node.Calls.{
  Env, Node, MountContext, MountPoint, unmount_mount_point, cancel, delete_section,
  cleanup_mount_point, cleanup_mount_with_force,
}
use csi_driver_rclone.Node.Keeps.{
  Keeps, Keeps-bind, Keeps-if, Keeps-ignored, Keeps-perform, Keeps-tell, Keeps-pure, Keeps-raise,
  Stable,
}
use csi_driver_rclone.Node.Effects.{Calm}
use csi_driver_rclone.Node.Config.Laws.{delete-Keeps}
use csi_driver_rclone.Node.Sync.Bounds.{wait-Keeps}
use csi_driver_rclone.Node.Volume.{
  cancel_given, need_vfs, unmount_point, unmount_context, point_of, unmount_volume, unpublish_body,
  get_mount_context, delete_mount_context, unmount_target,
}

-- A property that the unmounting has no way to change.
pub record Lasting {ℓ} (P : Node → Type ℓ) : Type ℓ where
  pub calm : Calm P
  pub deleting : (n : Text) → Stable P (delete_section n)
  pub unmounting : (id : ℕ) → Stable P (unmount_mount_point id)
  pub cleaning : (path : Text) → Stable P (cleanup_mount_point path)
  pub forcing : (path : Text) (n : ℕ) → Stable P (cleanup_mount_with_force path n)

module _ {ℓ} {P : Node → Type ℓ} (l : Lasting P) (env : Env) where
  pub cancel-Keeps : {E : Type 0} (o : Option ℕ) → Keeps P (cancel_given {E = E} o)
  cancel-Keeps none = Keeps-pure tt
  cancel-Keeps (some ctx) = Keeps-tell _ (l.calm.quiet (cancel ctx) refl)

  pub vfs-Keeps : (mp : MountPoint) → Keeps P (need_vfs mp)
  vfs-Keeps mp = Keeps-if mp.vfs _ _ (Keeps-pure tt) (Keeps-raise _)

  point-Keeps : (mc : MountContext) (mp : MountPoint) → Keeps P (unmount_point env mc mp)
  unfolding unmount_point
  point-Keeps mc mp = Keeps-bind _ _ (vfs-Keeps mp) (λ _.
      Keeps-bind _ _ (wait-Keeps l.calm Text env mp) (λ _.
        Keeps-bind _ _ (Keeps-ignored _ (Keeps-perform _ _ (l.unmounting mp.id))) (λ _.
          Keeps-bind _ _ (cancel-Keeps mc.cancel_func) (λ _.
            Keeps-if (ltb 0 (length mc.remotes)) _ _ (delete-Keeps mc.remotes l.deleting)
              (Keeps-pure tt)))))

  context-Keeps :
      (mc : Option MountContext) (mp : Option MountPoint) → Keeps P (unmount_context env mc mp)
  context-Keeps (some mc) (some mp) = point-Keeps mc mp
  context-Keeps (some mc) none = Keeps-pure tt
  context-Keeps none _ = Keeps-pure tt

  pub unmount-Keeps :
      (mc : Option MountContext) (target : Text) → Keeps P (unmount_volume env mc target)
  unfolding unmount_volume
  unmount-Keeps mc target = Keeps-bind _ _ (context-Keeps mc (point_of mc)) (λ _.
      Keeps-if env.force_unmounter _ _ (Keeps-perform _ _ (l.forcing target 30))
        (Keeps-perform _ _ (l.cleaning target)))

  pub target-Keeps : (target : Text) → Keeps P (unmount_target env target)
  unfolding unmount_target
  target-Keeps target = record {
    at = λ s h. (unmount-Keeps (get_mount_context s target) target).at s h;
  }

  forget-Keeps :
      (target : Text)
      → ((m : GoMap MountContext) (s : Node) → P s → P (record s { mount_context = m }))
      → Keeps P (delete_mount_context {E = Status} target)
  unfolding delete_mount_context
  forget-Keeps target context = record { at = λ s h. context _ s h }

  -- Unless the property speaks of the contexts, the whole request keeps it.
  pub unpublish-Keeps :
      (target : Text)
      → ((m : GoMap MountContext) (s : Node) → P s → P (record s { mount_context = m }))
      → Keeps P (unpublish_body env target)
  unfolding unpublish_body
  unpublish-Keeps target context =
      Keeps-bind _ _ (target-Keeps target) (λ _. forget-Keeps target context)
