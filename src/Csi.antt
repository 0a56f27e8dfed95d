-- ===== src/Csi.antt =====
-- The messages of the CSI interface that the driver reads and writes: the fields it uses.
use csi_driver_rclone.Prelude.{Bool, List, Option, none, some}
use csi_driver_rclone.Text.{Text}
use csi_driver_rclone.GoMap.{Params}

pub record MountVolume : Type 0 where
  pub mount_flags : List Text
  pub volume_mount_group : Text

-- The `oneof` of a volume capability, which may be unset.
pub data VolumeCapability : Type 0 where
  block : VolumeCapability
  mount : MountVolume → VolumeCapability
  unset : VolumeCapability

-- `GetMount`
abbrev pub get_mount : VolumeCapability → Option MountVolume
get_mount (mount m) = some m
get_mount block = none
get_mount unset = none

pub record NodePublishVolumeRequest : Type 0 where
  pub volume_id : Text
  pub target_path : Text
  pub volume_capability : Option VolumeCapability
  pub readonly : Bool
  pub secrets : Params
  pub volume_context : Params

pub record NodeUnpublishVolumeRequest : Type 0 where
  pub volume_id : Text
  pub target_path : Text
