-- ===== src/Metrics/Collect.antt =====
-- What a scrape sends: `Collect` and the functions below it.
--
-- `F` stands for Go's `float64`, and `float64` for the conversion to it.
pub mod Labels
use csi_driver_rclone.Prelude.{
  ℕ, ℤ, pos, Bool, true, false, Option, none, some, List, [], ◌∷◌, ◌++◌, Result, ok, err, length,
  int64_of, if◌then◌else◌,
}
use csi_driver_rclone.Text.{Text, codes}
use csi_driver_rclone.GoMap.{GoMap}
use csi_driver_rclone.Node.Calls.{Node, MountContext, MountPoint}
use csi_driver_rclone.Node.Stats.{Health, is_mount_healthy}
use csi_driver_rclone.Metrics.{
  extract_volume_id, extract_pod_id, extract_mount_type, get_device_name, get_volume_name,
  is_read_only, point_of,
}
use csi_driver_rclone.Metrics.Descs.{Desc, Collector}
use csi_driver_rclone.Metrics.Volumes.{VolumeMetrics, VfsStats, aggregate_volume_stats}

pub data ValueType : Type 0 where
  counter_value gauge_value : ValueType

pub record Metric (F : Type 0) : Type 0 where
  pub desc : Desc
  pub value_type : ValueType
  pub val : F
  pub label_values : List Text

-- What rclone's accounting says of all transfers; an entry is `none` where it is missing or not of the
-- type that is asked for.
pub record RemoteStats (F : Type 0) : Type 0 where
  pub speed : Option F
  pub eta : Option F
  pub checks : Option ℤ
  pub deletes : Option ℤ
  pub server_side_copies : Option ℤ
  pub server_side_moves : Option ℤ
  -- the lengths of two lists
  pub transferring : Option ℕ
  pub checking : Option ℕ

-- What a scrape asks of the code around it.
pub record Scrape (F : Type 0) : Type 0 where
  pub float64 : ℤ → F
  pub health : Health
  pub vfs_stats : ℕ → VfsStats
  pub remote_stats : Result Text (RemoteStats F)
  -- the seconds since the mount, printed with no decimals
  pub mounted_for : MountPoint → Text

abbrev labels_of : VolumeMetrics → List Text
labels_of vs = vs.volume_id ∷ vs.remote_name ∷ []

module _ {F : Type 0} where
  -- `prometheus.MustNewConstMetric`, for labels that fit the description
  abbrev metric : Desc → ValueType → F → List Text → Metric F
  metric d t v labels = record { desc = d; value_type = t; val = v; label_values = labels }

  unfoldable pub collect_node_info : Scrape F → Collector → List (Metric F)
  collect_node_info x c =
      metric c.node_info gauge_value (x.float64 (pos 1)) (
        c.node_id ∷ c.driver_name ∷ c.endpoint ∷ c.version_info.rclone_version
        ∷ c.version_info.driver_version ∷ [])
      ∷ []

  unfoldable pub emit_single_volume_metrics : Scrape F → Collector → VolumeMetrics → List (Metric F)
  unfolding int64_of
  emit_single_volume_metrics x c vs =
      metric c.vfs_in_use gauge_value (x.float64 (int64_of vs.in_use)) (labels_of vs)
      ∷ metric c.vfs_metadata_cache_dirs gauge_value (x.float64 (int64_of vs.metadata_cache_dirs))
          (labels_of vs)
      ∷ metric c.vfs_metadata_cache_files gauge_value (x.float64 (int64_of vs.metadata_cache_files))
          (labels_of vs)
      ∷ metric c.vfs_disk_cache_bytes_used gauge_value
          (x.float64 (int64_of vs.disk_cache_bytes_used)) (labels_of vs)
      ∷ metric c.vfs_disk_cache_files gauge_value (x.float64 (int64_of vs.disk_cache_files))
          (labels_of vs)
      ∷ metric c.vfs_disk_cache_errors counter_value (x.float64 (int64_of vs.disk_cache_errors))
          (labels_of vs)
      ∷ metric c.vfs_uploads_in_progress gauge_value (x.float64 (int64_of vs.uploads_in_progress))
          (labels_of vs)
      ∷ metric c.vfs_uploads_queued gauge_value (x.float64 (int64_of vs.uploads_queued))
          (labels_of vs)
      ∷ metric c.vfs_disk_cache_out_of_space gauge_value
          (x.float64 (pos (if vs.disk_cache_out_of_space then 1 else 0))) (labels_of vs)
      ∷ []

  -- In the order of the list.
  unfoldable pub emit_volume_metrics : Scrape F → Collector → GoMap VolumeMetrics → List (Metric F)
  unfolding emit_single_volume_metrics
  emit_volume_metrics x c [] = []
  emit_volume_metrics x c ((volume_id, vs) ∷ volume_stats) =
      emit_single_volume_metrics x c vs ++ emit_volume_metrics x c volume_stats

  unfoldable pub get_mount_duration : Scrape F → Option MountContext → Text
  get_mount_duration x mc = elim (point_of mc) [ none ↦ codes "0" | some p ↦ x.mounted_for p ]

  abbrev mount_health :
      Scrape F → Collector → Node → Text → MountContext → Option MountPoint → List (Metric F)
  unfolding is_mount_healthy
  mount_health x c s target_path mc none = []
  mount_health x c s target_path mc (some p) =
      metric c.mount_healthy gauge_value
        (x.float64 (pos (if (is_mount_healthy x.health s target_path).0 then 1 else 0)))
        (extract_volume_id target_path
          ∷ extract_pod_id target_path
          ∷ target_path
          ∷ mc.remote_name
          ∷ extract_mount_type (some mc)
          ∷ get_device_name (some mc)
          ∷ get_volume_name (some mc)
          ∷ is_read_only (some mc)
          ∷ get_mount_duration x (some mc)
          ∷ [])
      ∷ []

  unfoldable pub collect_mount_health_metrics :
      Scrape F → Collector → Node → GoMap MountContext → List (Metric F)
  unfolding mount_health
  collect_mount_health_metrics x c s [] = []
  collect_mount_health_metrics x c s ((target_path, mc) ∷ contexts) =
      mount_health x c s target_path mc mc.mount_point
      ++ collect_mount_health_metrics x c s contexts

  -- The node server may be nil.
  unfoldable pub collect_vfs_metrics : Scrape F → Collector → Option Node → List (Metric F)
  unfolding emit_volume_metrics collect_mount_health_metrics aggregate_volume_stats
  collect_vfs_metrics x c none = []
  collect_vfs_metrics x c (some s) =
      emit_volume_metrics x c (aggregate_volume_stats x.vfs_stats s.mount_context)
      ++ collect_mount_health_metrics x c s s.mount_context

  abbrev given : Option F → Desc → ValueType → List (Metric F)
  given none d t = []
  given (some v) d t = metric d t v [] ∷ []

  abbrev given_int : Scrape F → Option ℤ → Desc → ValueType → List (Metric F)
  given_int x none d t = []
  given_int x (some n) d t = metric d t (x.float64 n) [] ∷ []

  abbrev given_length : Scrape F → Option ℕ → Desc → ValueType → List (Metric F)
  given_length x none d t = []
  given_length x (some n) d t = metric d t (x.float64 (pos n)) [] ∷ []

  unfoldable pub emit_transfer_metrics : Collector → RemoteStats F → List (Metric F)
  emit_transfer_metrics c r =
      given r.speed c.remote_transfer_speed gauge_value
      ++ given r.eta c.remote_transfer_eta gauge_value

  unfoldable pub emit_operation_metrics : Scrape F → Collector → RemoteStats F → List (Metric F)
  emit_operation_metrics x c r =
      given_int x r.checks c.remote_checks_total counter_value
      ++ (given_int x r.deletes c.remote_deletes_total counter_value
          ++ (given_int x r.server_side_copies c.remote_server_side_copies counter_value
              ++ (given_int x r.server_side_moves c.remote_server_side_moves counter_value
                  ++ (given_length x r.transferring c.remote_transferring gauge_value
                      ++ given_length x r.checking c.remote_checking gauge_value))))

  abbrev remote_metrics : Scrape F → Collector → Result Text (RemoteStats F) → List (Metric F)
  unfolding emit_transfer_metrics emit_operation_metrics
  remote_metrics x c (err e) = []
  remote_metrics x c (ok r) = emit_transfer_metrics c r ++ emit_operation_metrics x c r

  unfoldable pub collect_remote_stats : Scrape F → Collector → List (Metric F)
  unfolding remote_metrics
  collect_remote_stats x c = remote_metrics x c x.remote_stats

  -- The collector may be nil.
  unfoldable pub collect : Scrape F → Option Collector → Option Node → List (Metric F)
  unfolding collect_node_info collect_vfs_metrics collect_remote_stats
  collect x none s = []
  collect x (some c) s =
      collect_node_info x c ++ (collect_vfs_metrics x c s ++ collect_remote_stats x c)
