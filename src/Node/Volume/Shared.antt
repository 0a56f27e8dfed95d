-- ===== src/Node/Volume/Shared.antt =====
-- Two mounts that use a remote of the same name: rclone's config is one for the whole process.
use csi_driver_rclone.Prelude.{
  ◌≡◌, ◌≢◌, true, false, some, ok, Bool-cases, inl, inr, ◌∙◌, sym, false≢true,
}
use csi_driver_rclone.Text.{Text}
use csi_driver_rclone.Text.Eq.{text_eq_ne}
use csi_driver_rclone.GoMap.{get}
use csi_driver_rclone.GoMap.Laws.{get-delete}
use csi_driver_rclone.Locks.{has}
use csi_driver_rclone.Csi.{NodeUnpublishVolumeRequest}
use csi_driver_rclone.Node.Calls.{Env, Node, MountContext, MountPoint}
use csi_driver_rclone.Node.Outcome.{Outcome-ok}
use csi_driver_rclone.Node.Effects.{live}
use csi_driver_rclone.Node.Volume.{node_unpublish_volume}
use csi_driver_rclone.Node.Volume.Unpublished.{IsUnpublished, IsStill, node_unpublish_volume_lem}

-- Where the contexts of two targets name the same remote, and that of the first has a mount point, an
-- unpublish request for the first that succeeds leaves the context of the other as it is, and takes the
-- section of the remote out of rclone's config, which that other mount still uses.
pub node_unpublish_volume-shared :
    (env : Env) (req : NodeUnpublishVolumeRequest) (s : Node) (n other : Text)
    (mc mc' : MountContext) (p : MountPoint)
    → get s.mount_context req.target_path ≡ some mc
    → mc.mount_point ≡ some p
    → has mc.remotes n ≡ true
    → get s.mount_context other ≡ some mc'
    → has mc'.remotes n ≡ true
    → req.target_path ≢ other
    → (node_unpublish_volume env req s).0 ≡ ok tt
    → (get (node_unpublish_volume env req s).1.mount_context other ≡ some mc')
      × (live (node_unpublish_volume env req s).1.trace n ≡ false)
node_unpublish_volume-shared env req s n other mc mc' p found point named found' named' apart done =
    let s' = (node_unpublish_volume env req s).1 in
    let u : IsUnpublished req.target_path s s' =
      Outcome-ok (IsUnpublished req.target_path s) (IsStill req.target_path s)
        (node_unpublish_volume env req s) done (node_unpublish_volume_lem env req s) in
    (
      rw (u.contexts, get-delete, text_eq_ne req.target_path other apart) found',
      elim (Bool-cases (live s'.trace n)) [
        | inl l ↦ absurd (false≢true (sym (u.gone n mc p found point l) ∙ named))
        | inr d ↦ d
      ],
    )
