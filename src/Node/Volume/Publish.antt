-- ===== src/Node/Volume/Publish.antt =====
-- What a publish request does, whatever the answers of the environment.
use csi_driver_rclone.Prelude.{◌≡◌, refl, true, List, Result, ok, err, Bool-cases, inl, inr}
use csi_driver_rclone.Text.{Text, is_empty}
use csi_driver_rclone.GoMap.{GoMap, put}
use csi_driver_rclone.Status.{Status}
use csi_driver_rclone.Csi.{VolumeCapability, NodePublishVolumeRequest, get_mount}
use csi_driver_rclone.Params.{
  PublishVolumeParams, generate_config_data, extract_publish_params, merge_volume_parameters,
}
use csi_driver_rclone.Node.Calls.{Env, Node, Call, MountContext, mount}
use csi_driver_rclone.Node.Monad.{M}
use csi_driver_rclone.Node.Keeps.{Keeps, Keeps-bind, Keeps-or_clean, Keeps-lift, Stable}
use csi_driver_rclone.Node.Effects.{Calm, is_config}
use csi_driver_rclone.Node.Target.Laws.{prepare-Keeps}
use csi_driver_rclone.Node.Config.Laws.{load-Keeps, cleanup-Keeps}
use csi_driver_rclone.Node.Mount.Laws.{create-Keeps}
use csi_driver_rclone.Node.Volume.{
  set_mount_context, mount_loaded, mount_volume, when_prepared, publish_body, mount_options_of,
  with_group,
}

-- A property that a publish request has no way to change.
pub record Unmoved {ℓ} (P : Node → Type ℓ) : Type ℓ where
  pub calm : Calm P
  pub config : (c : Call) → is_config c ≡ true → Stable P c
  pub mounting : (method target fs_path : Text) → Stable P (mount method target fs_path)
  pub context : (m : GoMap MountContext) (s : Node) → P s → P (record s { mount_context = m })

module _ {ℓ} {P : Node → Type ℓ} (u : Unmoved P) (env : Env) where
  set-Keeps :
      {E : Type 0} (target : Text) (mc : MountContext)
      → Keeps P (set_mount_context {E = E} target mc)
  unfolding set_mount_context
  set-Keeps target mc = record { at = λ s h. u.context (put s.mount_context target mc) s h }

  loaded-Keeps :
      (pvp : PublishVolumeParams) (target : Text) (options remotes : List Text)
      → Keeps P (mount_loaded env pvp target options remotes)
  unfolding mount_loaded
  loaded-Keeps pvp target options remotes =
      Keeps-bind _ _
        (Keeps-or_clean _ _ (create-Keeps u.calm u.mounting env _ target options pvp.params)
          (cleanup-Keeps remotes (λ n. u.config _ refl)))
        (λ p. set-Keeps target _)

  volume-Keeps :
      (pvp : PublishVolumeParams) (target : Text) (options : List Text)
      → Keeps P (mount_volume env pvp target options)
  unfolding mount_volume
  volume-Keeps pvp target options =
      Keeps-bind _ _ (Keeps-lift (generate_config_data pvp)) (λ filled.
        Keeps-bind _ _ (load-Keeps env filled u.config)
          (λ remotes. loaded-Keeps filled target options remotes))

  prepared-keeps :
      (r : Result Status (Unit {0}) × Node) (next : M Status (Unit {0}))
      → P r.1
      → Keeps P next
      → P (when_prepared env r next).1
  prepared-keeps (ok a, s) next h k = k.at s h
  prepared-keeps (err e, s) next h k = elim (Bool-cases (is_empty (env.status_text e))) [
    | inl y ↦ rw y h
    | inr n ↦ rw n h
  ]

  pub body-Keeps :
      (req : NodePublishVolumeRequest) (capability : VolumeCapability)
      → Keeps P (publish_body env req capability)
  unfolding publish_body
  body-Keeps req capability =
      Keeps-bind _ _
        (Keeps-lift (
          extract_publish_params (
            with_group (get_mount capability)
              (merge_volume_parameters req.secrets req.volume_context))))
        (λ pvp. record {
          at = λ s h. prepared-keeps _ _ ((prepare-Keeps u.calm env req.target_path).at s h) (
              volume-Keeps pvp req.target_path
                (mount_options_of (get_mount capability) req.readonly));
        })
