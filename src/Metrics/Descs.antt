-- ===== src/Metrics/Descs.antt =====
-- The descriptions of the metrics: `newMetricsCollector` and `Describe`.
use csi_driver_rclone.Prelude.{List, [], ◌∷◌, ◌++◌}
use csi_driver_rclone.Text.{Text, codes}
use csi_driver_rclone.Version.{VersionInfo}

-- `prometheus.Desc`, without constant labels, of which the driver has none.
pub record Desc : Type 0 where
  pub fq_name : Text
  pub help : Text
  pub variable_labels : List Text

-- `csiRcloneCollector`; the node server is an argument of the methods that read it.
pub record Collector : Type 0 where
  pub node_id : Text
  pub driver_name : Text
  pub endpoint : Text
  pub version_info : VersionInfo
  pub node_info : Desc
  pub vfs_in_use : Desc
  pub vfs_metadata_cache_dirs : Desc
  pub vfs_metadata_cache_files : Desc
  pub vfs_disk_cache_bytes_used : Desc
  pub vfs_disk_cache_files : Desc
  pub vfs_disk_cache_errors : Desc
  pub vfs_uploads_in_progress : Desc
  pub vfs_uploads_queued : Desc
  pub vfs_disk_cache_out_of_space : Desc
  pub mount_healthy : Desc
  pub remote_transfer_speed : Desc
  pub remote_transfer_eta : Desc
  pub remote_checks_total : Desc
  pub remote_deletes_total : Desc
  pub remote_server_side_copies : Desc
  pub remote_server_side_moves : Desc
  pub remote_transferring : Desc
  pub remote_checking : Desc

abbrev pub namespace : Text
namespace = codes "csi_driver_"

abbrev new_desc : Text → Text → List Text → Desc
new_desc name help labels = record {
  fq_name = namespace ++ name;
  help = help;
  variable_labels = labels;
}

abbrev volume_labels : List Text
volume_labels = codes "volume_id" ∷ codes "remote_name" ∷ []

unfoldable pub new_metrics_collector : Text → Text → Text → VersionInfo → Collector
new_metrics_collector node_id driver_name endpoint version_info = record {
  node_id = node_id;
  driver_name = driver_name;
  endpoint = endpoint;
  version_info = version_info;
  node_info = new_desc (codes "info") (codes "Information about the CSI driver") (
      codes "node_id"
      ∷ codes "driver_name"
      ∷ codes "endpoint"
      ∷ codes "rclone_version"
      ∷ codes "driver_version"
      ∷ []);
  vfs_in_use =
      new_desc (codes "vfs_file_handles_in_use")
        (codes "Number of file handles currently in use for this mount") volume_labels;
  vfs_metadata_cache_dirs =
      new_desc (codes "vfs_metadata_cache_dirs_total")
        (codes "Number of directories in the VFS metadata cache") volume_labels;
  vfs_metadata_cache_files =
      new_desc (codes "vfs_metadata_cache_files_total")
        (codes "Number of files in the VFS metadata cache") volume_labels;
  vfs_disk_cache_bytes_used =
      new_desc (codes "vfs_disk_cache_bytes_used") (codes "Bytes used by the VFS disk cache")
        volume_labels;
  vfs_disk_cache_files =
      new_desc (codes "vfs_disk_cache_files_total") (codes "Number of files in the VFS disk cache")
        volume_labels;
  vfs_disk_cache_errors =
      new_desc (codes "vfs_disk_cache_errored_files_total")
        (codes "Number of files with errors in the VFS disk cache") volume_labels;
  vfs_uploads_in_progress =
      new_desc (codes "vfs_uploads_in_progress_total")
        (codes "Number of uploads currently in progress") volume_labels;
  vfs_uploads_queued =
      new_desc (codes "vfs_uploads_queued_total") (codes "Number of uploads queued for processing")
        volume_labels;
  vfs_disk_cache_out_of_space =
      new_desc (codes "vfs_disk_cache_out_of_space")
        (codes "Whether the VFS disk cache is out of space (1=yes, 0=no)") volume_labels;
  mount_healthy =
      new_desc (codes "mount_healthy")
        (codes "Mount health status with mount details (1=healthy, 0=unhealthy)")
        (codes "volume_id"
          ∷ codes "pod_id"
          ∷ codes "target_path"
          ∷ codes "remote_name"
          ∷ codes "mount_type"
          ∷ codes "device_name"
          ∷ codes "volume_name"
          ∷ codes "read_only"
          ∷ codes "mount_duration_seconds"
          ∷ []);
  remote_transfer_speed =
      new_desc (codes "remote_transfer_speed_bytes_per_second")
        (codes "Current transfer speed in bytes per second") [];
  remote_transfer_eta =
      new_desc (codes "remote_transfer_eta_seconds")
        (codes "Estimated time to completion in seconds") [];
  remote_checks_total =
      new_desc (codes "remote_checks_total") (codes "Total number of file checks completed") [];
  remote_deletes_total =
      new_desc (codes "remote_deletes_total") (codes "Total number of files deleted") [];
  remote_server_side_copies =
      new_desc (codes "remote_server_side_copies_total")
        (codes "Total number of server-side copies") [];
  remote_server_side_moves =
      new_desc (codes "remote_server_side_moves_total") (codes "Total number of server-side moves")
        [];
  remote_transferring =
      new_desc (codes "remote_transferring_files")
        (codes "Number of files currently being transferred") [];
  remote_checking =
      new_desc (codes "remote_checking_files") (codes "Number of files currently being checked") [];
}

-- The descriptions that `Describe` sends, in its order.
unfoldable pub describe : Collector → List Desc
describe c =
    c.node_info ∷ c.vfs_in_use ∷ c.vfs_metadata_cache_dirs ∷ c.vfs_metadata_cache_files
    ∷ c.vfs_disk_cache_bytes_used ∷ c.vfs_disk_cache_files ∷ c.vfs_disk_cache_errors
    ∷ c.vfs_uploads_in_progress ∷ c.vfs_uploads_queued ∷ c.vfs_disk_cache_out_of_space
    ∷ c.mount_healthy ∷ c.remote_transfer_speed ∷ c.remote_transfer_eta ∷ c.remote_checks_total
    ∷ c.remote_deletes_total ∷ c.remote_server_side_copies ∷ c.remote_server_side_moves
    ∷ c.remote_transferring ∷ c.remote_checking ∷ []
