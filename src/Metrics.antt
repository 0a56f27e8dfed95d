-- ===== src/Metrics.antt =====
-- The labels of the metrics (pkg/rclone/metrics_collector.go): what is read from a target path and
-- from a mount context.
pub mod Descs
pub mod Volumes
pub mod Collect
pub mod Deadlock
use csi_driver_rclone.Prelude.{
  ◌≡◌, ◌≢◌, refl, ap, ◌∙◌, false, Option, none, some, List, [], ◌∷◌, ◌++◌, if◌then◌else◌,
}
use csi_driver_rclone.Text.{Text, codes, text_eq, is_empty, split}
use csi_driver_rclone.Text.Eq.{text_eq_ne}
use csi_driver_rclone.Text.Pieces.{Lacks, split-append}
use csi_driver_rclone.Node.Calls.{MountContext, MountPoint}

abbrev pub unknown_value : Text
unknown_value = codes "unknown"

-- The component behind the first component that is `name` and has one behind it.
unfoldable pub part_after : Text → List Text → Option Text
unfolding text_eq
part_after name [] = none
part_after name (part ∷ []) = none
part_after name (part ∷ follower ∷ parts) =
    let later = part_after name (follower ∷ parts) in
    if text_eq part name then some follower else later

unfoldable pub last_part : List Text → Text
last_part [] = unknown_value
last_part (part ∷ []) = part
last_part (part ∷ follower ∷ parts) = last_part (follower ∷ parts)

abbrev found_or : Option Text → Text → Text
found_or none fallback = fallback
found_or (some part) fallback = part

unfoldable pub extract_volume_id : Text → Text
unfolding part_after last_part split
extract_volume_id target_path =
    let parts = split target_path b'/' in
    found_or (part_after (codes "kubernetes.io~csi") parts) (last_part parts)

unfoldable pub extract_pod_id : Text → Text
unfolding part_after split
extract_pod_id target_path =
    found_or (part_after (codes "pods") (split target_path b'/')) unknown_value

abbrev named : Text → Text
named name = if is_empty name then unknown_value else name

abbrev pub point_of : Option MountContext → Option MountPoint
point_of none = none
point_of (some mc) = mc.mount_point

abbrev label {ℓ} : {A : Type ℓ} → Option MountPoint → A → (MountPoint → A) → A
label none missing f = missing
label (some p) missing f = f p

unfoldable pub extract_mount_type : Option MountContext → Text
extract_mount_type mc = label (point_of mc) unknown_value (λ p. codes "mount")

unfoldable pub get_device_name : Option MountContext → Text
get_device_name mc = label (point_of mc) unknown_value (λ p. named p.mount_opt.device_name)

unfoldable pub get_volume_name : Option MountContext → Text
get_volume_name mc = label (point_of mc) unknown_value (λ p. named p.mount_opt.volume_name)

unfoldable pub is_read_only : Option MountContext → Text
is_read_only mc =
    label (point_of mc) (codes "false")
      (λ p. if p.vfs_opt.read_only then codes "true" else codes "false")

-- The target path that the kubelet gives for a volume of a pod.
abbrev pub kubelet_path : Text → Text → Text
kubelet_path pod_uid volume_id =
    codes "/var/lib/kubelet/pods/"
    ++ (pod_uid ++ (codes "/volumes/kubernetes.io~csi/" ++ (volume_id ++ codes "/mount")))

part_after-skip :
    (name part follower : Text) (parts : List Text)
    → text_eq part name ≡ false
    → part_after name (part ∷ follower ∷ parts) ≡ part_after name (follower ∷ parts)
unfolding part_after
part_after-skip name part follower parts e = rw e refl

kubelet_parts :
    (pod_uid volume_id : Text)
    → Lacks b'/' pod_uid
    → Lacks b'/' volume_id
    → split (kubelet_path pod_uid volume_id) b'/'
      ≡ []
        ∷ codes "var"
        ∷ codes "lib"
        ∷ codes "kubelet"
        ∷ codes "pods"
        ∷ pod_uid
        ∷ codes "volumes"
        ∷ codes "kubernetes.io~csi"
        ∷ volume_id
        ∷ codes "mount"
        ∷ []
kubelet_parts pod_uid volume_id hp hv =
    unfold split in
    rw
      (
        split-append b'/' pod_uid
            (codes "volumes/kubernetes.io~csi/" ++ (volume_id ++ codes "/mount")) hp,
        split-append b'/' volume_id (codes "mount") hv,
      )
      refl

-- From a target path of the kubelet, whose pod UID and volume ID hold no slash and whose pod UID is
-- not the name of the directory `kubernetes.io~csi`, the volume ID and the pod UID are read back.
pub extract-kubelet_path :
    (pod_uid volume_id : Text)
    → Lacks b'/' pod_uid
    → Lacks b'/' volume_id
    → pod_uid ≢ codes "kubernetes.io~csi"
    → (extract_volume_id (kubelet_path pod_uid volume_id) ≡ volume_id)
      × (extract_pod_id (kubelet_path pod_uid volume_id) ≡ pod_uid)
unfolding extract_volume_id extract_pod_id part_after text_eq last_part
extract-kubelet_path pod_uid volume_id hp hv ne = (
  ap (λ parts. found_or (part_after (codes "kubernetes.io~csi") parts) (last_part parts))
        (kubelet_parts pod_uid volume_id hp hv)
      ∙ ap (λ o. found_or o (codes "mount"))
          (part_after-skip (codes "kubernetes.io~csi") pod_uid (codes "volumes")
            (codes "kubernetes.io~csi" ∷ volume_id ∷ codes "mount" ∷ [])
            (text_eq_ne pod_uid (codes "kubernetes.io~csi") ne)),
  ap (λ parts. found_or (part_after (codes "pods") parts) unknown_value)
      (kubelet_parts pod_uid volume_id hp hv),
)
