-- ===== src/Node/Volume/Published/Request.antt =====
-- A publish request as a whole, for what its context is to have.
use csi_driver_rclone.Prelude.{
  ◌≡◌, refl, true, false, inl, inr, Option, none, some, List, ◌∷◌, Result, ok, err, Bool-cases,
}
use csi_driver_rclone.Text.{Text, is_empty, text_eq}
use csi_driver_rclone.GoMap.{GoMap, Params, put, value}
use csi_driver_rclone.GoMap.Laws.{get-put}
use csi_driver_rclone.Status.{Status}
use csi_driver_rclone.Locks.{VolumeLocks}
use csi_driver_rclone.Csi.{MountVolume, NodePublishVolumeRequest, VolumeCapability, get_mount}
use csi_driver_rclone.Params.{
  PublishVolumeParams, extract_publish_params, merge_volume_parameters, build_fs_path, param_remote,
  param_remote_path,
}
use csi_driver_rclone.Params.Extract.{extract_sound}
use csi_driver_rclone.Node.Calls.{Env, Node, MountContext}
use csi_driver_rclone.Node.Monad.{continue}
use csi_driver_rclone.Node.Outcome.{Outcome}
use csi_driver_rclone.Node.Target.{prepare_target_directory}
use csi_driver_rclone.Node.Target.Laws.{prepare-Keeps}
use csi_driver_rclone.Node.Config.{load_rclone_config}
use csi_driver_rclone.Node.Volume.{
  mount_volume, when_prepared, publish_body, mount_options_of, with_group, with_volume_lock,
  node_publish_volume, validate_publish_volume_request, param_volume_mount_group,
  param_volume_mount_user, param_volume_mount_allow_other,
}
use csi_driver_rclone.Node.Volume.Published.{At, At-Calm, OrIn, IsContext, locked_lem}
use csi_driver_rclone.Node.Volume.Published.Load.{Loaded}
use csi_driver_rclone.Node.Volume.Published.Mounting.{Tried}
use csi_driver_rclone.Node.Volume.Published.Body.{volume_lem, prepared_lem}

-- The file system that a request names, by its secrets and its volume context.
abbrev pub fs_path_of : NodePublishVolumeRequest → Text
fs_path_of req =
    let params = merge_volume_parameters req.secrets req.volume_context in
    build_fs_path (value params param_remote) (value params param_remote_path)

value-put : (m : Params) (k v j : Text) → text_eq k j ≡ false → value (put m k v) j ≡ value m j
unfolding value
value-put m k v j h = rw (get-put, h) refl

-- The volume mount group has no part in it.
value-with_group :
    (m : Option MountVolume) (params : Params) (j : Text)
    → text_eq param_volume_mount_group j ≡ false
    → text_eq param_volume_mount_user j ≡ false
    → text_eq param_volume_mount_allow_other j ≡ false
    → value (with_group m params) j ≡ value params j
value-with_group none params j a b c = refl
value-with_group (some m) params j a b c = elim (Bool-cases (is_empty m.volume_mount_group)) [
  | inl y ↦ rw y refl
  | inr d ↦ rw (d, value-put _ _ _ j c, value-put _ _ _ j b, value-put _ _ _ j a) refl
]

with_group-fs_path :
    (m : Option MountVolume) (params : Params) {pvp : PublishVolumeParams}
    → extract_publish_params (with_group m params) ≡ ok pvp
    → build_fs_path pvp.remote_name pvp.remote_path
      ≡ build_fs_path (value params param_remote) (value params param_remote_path)
unfolding text_eq
with_group-fs_path m params e =
    let x = extract_sound (with_group m params) e in
    rw
      (
        x.name,
        x.path,
        value-with_group m params param_remote refl refl refl,
        value-with_group m params param_remote_path refl refl refl,
      )
      refl

module _ (env : Env) (req : NodePublishVolumeRequest) (contexts : GoMap MountContext)
    (asked : List (Text × Text)) (W : Text → Type 0) (Final : Node → Type 0)
    (loads : (pvp : PublishVolumeParams) (s : Node)
      → At contexts asked W s
      → Loaded contexts asked W (load_rclone_config env pvp s))
    (putting : (remotes : List Text) (mc : MountContext) (s : Node)
      → IsContext env req.target_path remotes mc
      → At contexts ((req.target_path, fs_path_of req) ∷ asked) (OrIn W remotes) s
      → Final (record s { mount_context = put s.mount_context req.target_path mc }))
    (silent : (e : Status) (s : Node)
      → is_empty (env.status_text e) ≡ true
      → At contexts asked W s
      → Final s)
    (unlocked : (vl : VolumeLocks) (s : Node)
      → Final s
      → Final (record s { volume_locks = vl })) where
  abbrev Done : Result Status (Unit {0}) × Node → Type 0
  Done = Outcome (λ _. Final) (Tried env req.target_path (fs_path_of req) contexts asked W)

  body_lem :
      (capability : VolumeCapability) (s : Node)
      → At contexts asked W s
      → Done (publish_body env req capability s)
  unfolding publish_body
  body_lem capability s h = go (extract_publish_params params) refl
    where
      params : Params
      params =
          with_group (get_mount capability) (merge_volume_parameters req.secrets req.volume_context)

      options : List Text
      options = mount_options_of (get_mount capability) req.readonly

      go :
          (r : Result Status PublishVolumeParams)
          → extract_publish_params params ≡ r
          → Done (
              continue
                (r, s)
                (λ pvp t.
                  when_prepared env
                    (prepare_target_directory env req.target_path t)
                    (mount_volume env pvp req.target_path options)))
      go (err x) f = inl h
      go (ok pvp) f =
          prepared_lem env req.target_path (fs_path_of req) contexts asked W Final loads putting
            silent (prepare_target_directory env req.target_path s) _
            ((prepare-Keeps (At-Calm contexts asked W) env req.target_path).at s h)
            (λ t g.
              volume_lem env req.target_path (fs_path_of req) contexts asked W Final loads putting
                silent pvp options t (with_group-fs_path (get_mount capability) _ f) g)

  relocked :
      (vl : VolumeLocks) (s : Node)
      → At contexts asked W s
      → At contexts asked W (record s { volume_locks = vl })
  relocked vl s h = record { same = h.same; mounts = h.mounts; standing = h.standing }

  tried_unlocked :
      (vl : VolumeLocks) (s : Node)
      → Tried env req.target_path (fs_path_of req) contexts asked W s
      → Tried env req.target_path (fs_path_of req) contexts asked W (record s { volume_locks = vl })
  tried_unlocked vl s (inl h) = inl (relocked vl s h)
  tried_unlocked vl s (inr h) =
      inr (record { same = h.same; mounts = h.mounts; standing = h.standing })

  -- What a request leads to, where its context is put and where it fails.
  pub publish_lem : (s : Node) → At contexts asked W s → Done (node_publish_volume env req s)
  unfolding node_publish_volume
  publish_lem s h = go (validate_publish_volume_request req)
    where
      go :
          (r : Result Status VolumeCapability)
          → Done (
              continue
                (r, s)
                (λ capability.
                  with_volume_lock req.volume_id req.target_path (publish_body env req capability)))
      go (err x) = inl h
      go (ok capability) =
          locked_lem (At contexts asked W) Final
            (Tried env req.target_path (fs_path_of req) contexts asked W) (λ t g. inl g) relocked
            unlocked tried_unlocked req.volume_id req.target_path (publish_body env req capability)
            (body_lem capability) s h
