-- ===== src/Provision.antt =====
-- From the controller to the node: a volume that `CreateVolume` has made, published by a node.
use csi_driver_rclone.Prelude.{◌≡◌, refl, ap, arith, ◌∙◌, some, [], ◌∷◌, ok, false}
use csi_driver_rclone.Text.{Text, text_eq, is_empty}
use csi_driver_rclone.GoMap.{Params, get, value, IsMap}
use csi_driver_rclone.GoMap.Laws.{get-put, get-put_self, get-put_all, put-IsMap, put_all-IsMap}
use csi_driver_rclone.Status.{Status}
use csi_driver_rclone.Csi.{NodePublishVolumeRequest}
use csi_driver_rclone.Params.{
  param_remote, param_remote_path, build_fs_path, merge_volume_parameters,
}
use csi_driver_rclone.Params.Merge.{get-merge_volume_parameters}
use csi_driver_rclone.Controller.{
  CreateVolumeRequest, Volume, create_volume, create_volume_context, read_parameters, read_init,
  resolved_path,
}
use csi_driver_rclone.Node.Calls.{Env, Node}
use csi_driver_rclone.Node.Effects.{mounted}
use csi_driver_rclone.Node.Volume.{node_publish_volume}
use csi_driver_rclone.Node.Volume.Published.Request.{fs_path_of}
use csi_driver_rclone.Node.Volume.Published.Laws.{node_publish_volume-ok}

abbrev path_of : (Params → Params) → CreateVolumeRequest → Text
path_of order creq = resolved_path order (read_parameters read_init creq.parameters)

-- What a volume that was made has for its context.
created_context :
    (order : Params → Params) (creq : CreateVolumeRequest) {volume : Volume}
    → create_volume order creq ≡ ok volume
    → volume.volume_context ≡ create_volume_context creq.parameters (path_of order creq)
unfolding create_volume
created_context order creq e = ground arith

module _ (parameters : Params) (path r : Text) (m : IsMap parameters)
    (remote : get parameters param_remote ≡ some r) (named : is_empty path ≡ false) where
  context-IsMap : IsMap (create_volume_context parameters path)
  unfolding create_volume_context
  context-IsMap = rw named (put-IsMap _ param_remote_path path (put_all-IsMap [] parameters tt))

  context_path : get (create_volume_context parameters path) param_remote_path ≡ some path
  unfolding create_volume_context
  context_path = rw named (get-put_self _ param_remote_path path)

  context_remote : get (create_volume_context parameters path) param_remote ≡ some r
  unfolding create_volume_context text_eq get
  context_remote = rw (named, get-put, get-put_all [] parameters param_remote m, remote) refl

  -- Whatever the secrets are.
  merged-fs_path :
      (secrets : Params)
      → IsMap secrets
      → let params = merge_volume_parameters secrets (create_volume_context parameters path) in
        build_fs_path (value params param_remote) (value params param_remote_path)
        ≡ build_fs_path r path
  unfolding value
  merged-fs_path secrets h =
      let context = create_volume_context parameters path in
      rw
        (
          get-merge_volume_parameters secrets context param_remote h context-IsMap,
          get-merge_volume_parameters secrets context param_remote_path h context-IsMap,
          context_remote,
          context_path,
        )
        refl

-- A volume that the controller has made of parameters with a remote and a path that does not resolve to
-- nothing, none of them twice, is mounted from that remote and the path as it was resolved: a publish
-- request with its context that succeeds has asked for that mount at its target, and for no other,
-- whatever the secrets are. Provided that every error has a text that is not empty, as gRPC's have.
pub node_publish_volume-create_volume :
    (env : Env) (order : Params → Params) (creq : CreateVolumeRequest) (volume : Volume) (r : Text)
    (req : NodePublishVolumeRequest) (s : Node)
    → ((e : Status) → is_empty (env.status_text e) ≡ false)
    → create_volume order creq ≡ ok volume
    → IsMap creq.parameters
    → get creq.parameters param_remote ≡ some r
    → is_empty (path_of order creq) ≡ false
    → IsMap req.secrets
    → req.volume_context ≡ volume.volume_context
    → (node_publish_volume env req s).0 ≡ ok tt
    → mounted (node_publish_volume env req s).1.trace
      ≡ (req.target_path, build_fs_path r (path_of order creq)) ∷ mounted s.trace
node_publish_volume-create_volume env order creq volume r req s texts made m remote named secrets
      same done =
    let e : fs_path_of req ≡ build_fs_path r (path_of order creq) =
      rw (same, created_context order creq made)
        (merged-fs_path creq.parameters (path_of order creq) r m remote named req.secrets
          secrets) in
    (node_publish_volume-ok env req s texts done).mounts
    ∙ ap (λ fs_path. (req.target_path, fs_path) ∷ mounted s.trace) e
