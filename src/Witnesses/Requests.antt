-- ===== src/Witnesses/Requests.antt =====
-- Publish and unpublish requests on the sample.
use csi_driver_rclone.Prelude.{◌≡◌, true, false, [], pos, ◌+◌, ◌≤◌}
use csi_driver_rclone.Text.{Text, codes}
use csi_driver_rclone.Locks.{has}
use csi_driver_rclone.Node.Calls.{MountPoint}
use csi_driver_rclone.Node.Sync.{wait_for_vfs_cache_sync}
use csi_driver_rclone.Node.Sync.Bounds.{slept, slept-wait}
use csi_driver_rclone.Node.Volume.{node_publish_volume}
use csi_driver_rclone.Node.Volume.Requests.{node_publish_volume-locks}
use csi_driver_rclone.Witnesses.Sample.{sample_env, sample_publish, sample_node, busy_node}

node_publish_volume-locks_example :
    has
      (node_publish_volume sample_env sample_publish busy_node).1.volume_locks.locks
      (codes "v-/t")
    ≡ has busy_node.volume_locks.locks (codes "v-/t")
node_publish_volume-locks_example =
    node_publish_volume-locks sample_env sample_publish busy_node (codes "v-/t")

abbrev sample_point : MountPoint
sample_point = record {
  id = 7;
  target = codes "/t";
  mount_opt = record { device_name = []; volume_name = []; daemon = false; daemon_wait = pos 0 };
  vfs_opt = record { read_only = false };
  vfs = true;
}

slept-wait_example :
    slept (wait_for_vfs_cache_sync {E = Text} sample_env sample_point sample_node).1.trace
    ≤ slept sample_node.trace + 30
slept-wait_example = slept-wait Text sample_env sample_point sample_node
