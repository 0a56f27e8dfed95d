-- ===== src/Driver.antt =====
-- The driver, as `NewDriver` makes it (pkg/rclone/rclone.go), and the capabilities that it tells.
use csi_driver_rclone.Prelude.{List, [], ◌∷◌}
use csi_driver_rclone.Text.{Text, codes}
use csi_driver_rclone.Locks.{VolumeLocks, new_volume_locks}
use csi_driver_rclone.Version.{Build}

abbrev pub default_driver_name : Text
default_driver_name = codes "rclone.csi.veloxpack.io"

pub record DriverOptions : Type 0 where
  pub node_id : Text
  pub driver_name : Text
  pub endpoint : Text

-- The RPCs of the CSI interface that the driver names.
pub data ControllerRpc : Type 0 where
  create_delete_volume : ControllerRpc

pub data NodeRpc : Type 0 where
  unknown volume_condition volume_mount_group : NodeRpc

pub record ControllerServiceCapability : Type 0 where
  pub rpc : ControllerRpc

pub record NodeServiceCapability : Type 0 where
  pub rpc : NodeRpc

-- The node server that `Run` adds is an argument of the code that uses it.
pub record Driver : Type 0 where
  pub name : Text
  pub node_id : Text
  pub version : Text
  pub endpoint : Text
  pub cscap : List ControllerServiceCapability
  pub nscap : List NodeServiceCapability
  pub volume_locks : VolumeLocks

unfoldable pub new_controller_service_capability : ControllerRpc → ControllerServiceCapability
new_controller_service_capability c = record { rpc = c }

unfoldable pub new_node_service_capability : NodeRpc → NodeServiceCapability
new_node_service_capability c = record { rpc = c }

unfoldable pub controller_capabilities : List ControllerRpc → List ControllerServiceCapability
unfolding new_controller_service_capability
controller_capabilities [] = []
controller_capabilities (c ∷ cl) = new_controller_service_capability c ∷ controller_capabilities cl

unfoldable pub add_controller_service_capabilities : Driver → List ControllerRpc → Driver
unfolding controller_capabilities
add_controller_service_capabilities d cl = record d { cscap = controller_capabilities cl }

unfoldable pub node_capabilities : List NodeRpc → List NodeServiceCapability
unfolding new_node_service_capability
node_capabilities [] = []
node_capabilities (n ∷ nl) = new_node_service_capability n ∷ node_capabilities nl

unfoldable pub add_node_service_capabilities : Driver → List NodeRpc → Driver
unfolding node_capabilities
add_node_service_capabilities d nl = record d { nscap = node_capabilities nl }

-- `InitRcloneLogging`, which is called here too, sets nothing of the driver.
unfoldable pub new_driver : Build → DriverOptions → Driver
unfolding add_controller_service_capabilities add_node_service_capabilities
new_driver b options =
    let d : Driver = record {
      name = options.driver_name;
      node_id = options.node_id;
      version = b.driver_version;
      endpoint = options.endpoint;
      cscap = [];
      nscap = [];
      volume_locks = record { locks = [] };
    } in
    let with_controller = add_controller_service_capabilities d (create_delete_volume ∷ []) in
    let with_node =
      add_node_service_capabilities with_controller
        (unknown ∷ volume_condition ∷ volume_mount_group ∷ []) in
    record with_node { volume_locks = new_volume_locks }

-- `ControllerGetCapabilities`
unfoldable pub controller_get_capabilities : Driver → List ControllerServiceCapability
controller_get_capabilities d = d.cscap

-- `NodeGetCapabilities` and `NodeGetInfo`
unfoldable pub node_get_capabilities : Driver → List NodeServiceCapability
node_get_capabilities d = d.nscap

unfoldable pub node_get_info : Driver → Text
node_get_info d = d.node_id
