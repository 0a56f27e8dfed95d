-- ===== src/Node/RoundTrip.antt =====
-- A volume that is published and then unpublished.
use csi_driver_rclone.Prelude.{
  ◌≡◌, ap, subst, arith, ◌∙◌, none, some, ◌∷◌, ok, if◌then◌else◌, false, ◌++◌,
}
use csi_driver_rclone.Text.{Text, text_eq, is_empty}
use csi_driver_rclone.GoMap.{get}
use csi_driver_rclone.GoMap.Laws.{get-put, get-put_self, get-delete}
use csi_driver_rclone.Status.{Status}
use csi_driver_rclone.Csi.{NodePublishVolumeRequest, NodeUnpublishVolumeRequest}
use csi_driver_rclone.Node.Calls.{Env, Node, Trace, MountContext, MountPoint, Mounted}
use csi_driver_rclone.Node.Outcome.{Outcome-ok}
use csi_driver_rclone.Node.Effects.{mounted, unmounted, cleaned}
use csi_driver_rclone.Node.Volume.{node_publish_volume, node_unpublish_volume}
use csi_driver_rclone.Node.Volume.Requests.{
  node_publish_volume-unmounted, node_publish_volume-cleaned,
}
use csi_driver_rclone.Node.Volume.Published.Request.{fs_path_of}
use csi_driver_rclone.Node.Volume.Published.Laws.{IsPublished, node_publish_volume-ok}
use csi_driver_rclone.Node.Volume.Unpublished.{IsUnpublished, IsStill, node_unpublish_volume_lem}
use csi_driver_rclone.Node.Volume.Unmounted.{mount_ids-some}

-- Between `s` and `s2`, by way of `s1`: one mount was asked for, at the target; the context of `s1` has a
-- number that rclone answered, by which one unmount was asked for, and the target was to be cleaned up;
-- no context is new.
pub record IsUndone (env : Env) (req : NodePublishVolumeRequest) (s s1 s2 : Node) : Type 0 where
  pub mc : MountContext
  pub point : MountPoint
  pub recorded : get s1.mount_context req.target_path ≡ some mc
  pub has_point : mc.mount_point ≡ some point
  pub answered :
      (t : Trace) × (made : Mounted) × (env.on_mount t req.target_path ≡ ok made)
      × (made.id ≡ point.id)
  pub mounts : mounted s2.trace ≡ (req.target_path, fs_path_of req) ∷ mounted s.trace
  pub unmounts : unmounted s2.trace ≡ point.id ∷ unmounted s.trace
  pub cleanups : cleaned s2.trace ≡ req.target_path ∷ cleaned s.trace
  pub contexts :
      (t : Text)
      → get s2.mount_context t ≡ (if text_eq req.target_path t then none else get s.mount_context t)

combined :
    (env : Env) (req : NodePublishVolumeRequest) (s s1 s2 : Node)
    → unmounted s1.trace ≡ unmounted s.trace
    → cleaned s1.trace ≡ cleaned s.trace
    → IsPublished env req s s1
    → IsUnpublished req.target_path s1 s2
    → IsUndone env req s s1 s2
combined env req s s1 s2 quiet calm p u =
    let c = p.context in
    let found : get s1.mount_context req.target_path ≡ some p.mc =
      rw p.contexts (get-put_self s.mount_context req.target_path p.mc) in
    record {
      mc = p.mc;
      point = c.point;
      recorded = found;
      has_point = c.has_point;
      answered = c.answered;
      mounts = u.mounts ∙ p.mounts;
      unmounts =
          u.unmounts
          ∙ (ap (λ ids. ids ++ unmounted s1.trace) (mount_ids-some _ found c.has_point)
              ∙ ap (λ l. c.point.id ∷ l) quiet);
      cleanups = u.cleanups ∙ ap (λ l. req.target_path ∷ l) calm;
      contexts = λ t. rw (u.contexts, get-delete, p.contexts, get-put) (ground arith);
    }

-- A publish request and then an unpublish request for the same target, both of which succeed, have
-- asked for one mount, of the file system that the publish request names, and have asked rclone for one
-- unmount, of the mount that the publish request has put in the context of the target, by a number that
-- rclone answered to a mount there, and the mounter for one clean-up, of the target; and the contexts
-- are those of before, but that the target has none. Provided that every error has a text that is not
-- empty, as gRPC's have.
pub unpublish-publish :
    (env : Env) (req : NodePublishVolumeRequest) (req' : NodeUnpublishVolumeRequest) (s : Node)
    → ((e : Status) → is_empty (env.status_text e) ≡ false)
    → req'.target_path ≡ req.target_path
    → (node_publish_volume env req s).0 ≡ ok tt
    → (node_unpublish_volume env req' (node_publish_volume env req s).1).0 ≡ ok tt
    → IsUndone env req s
        (node_publish_volume env req s).1
        (node_unpublish_volume env req' (node_publish_volume env req s).1).1
unpublish-publish env req req' s texts same p u =
    let s1 = (node_publish_volume env req s).1 in
    let s2 = (node_unpublish_volume env req' s1).1 in
    combined env req s s1 s2 (node_publish_volume-unmounted env req s)
      (node_publish_volume-cleaned env req s) (node_publish_volume-ok env req s texts p)
      (subst (λ t. IsUnpublished t s1 s2) same
        (Outcome-ok (IsUnpublished req'.target_path s1) (IsStill req'.target_path s1)
          (node_unpublish_volume env req' s1) u (node_unpublish_volume_lem env req' s1)))
