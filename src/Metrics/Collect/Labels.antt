-- ===== src/Metrics/Collect/Labels.antt =====
-- Prometheus takes a metric only with a description that was announced, and panics where the label
-- values are not as many as the description has labels.
use csi_driver_rclone.Prelude.{
  ℕ, ℤ, ◌≡◌, refl, Option, none, some, List, [], ◌∷◌, ◌++◌, Result, ok, err, length, get_elem?, All,
  All-append,
}
use csi_driver_rclone.Text.{Text}
use csi_driver_rclone.GoMap.{GoMap}
use csi_driver_rclone.Version.{VersionInfo}
use csi_driver_rclone.Node.Calls.{Node, MountContext, MountPoint}
use csi_driver_rclone.Metrics.Descs.{Desc, Collector, new_metrics_collector, describe}
use csi_driver_rclone.Metrics.Volumes.{VolumeMetrics, aggregate_volume_stats}
use csi_driver_rclone.Metrics.Collect.{
  Metric, ValueType, RemoteStats, Scrape, given, given_int, given_length, collect_node_info,
  emit_single_volume_metrics, emit_volume_metrics, mount_health, collect_mount_health_metrics,
  collect_vfs_metrics, emit_transfer_metrics, emit_operation_metrics, remote_metrics,
  collect_remote_stats, collect,
}

-- A metric that Prometheus takes from the collector.
pub record IsTaken (c : Collector) {F : Type 0} (m : Metric F) : Type 0 where
  pub announced : (i : ℕ) × (get_elem? (describe c) i ≡ some m.desc)
  pub labelled : length m.label_values ≡ length m.desc.variable_labels

-- The descriptions with as many labels as their metrics have values.
record Fits (c : Collector) : Type 0 where
  node_info : 5 ≡ length c.node_info.variable_labels
  vfs_in_use : 2 ≡ length c.vfs_in_use.variable_labels
  vfs_metadata_cache_dirs : 2 ≡ length c.vfs_metadata_cache_dirs.variable_labels
  vfs_metadata_cache_files : 2 ≡ length c.vfs_metadata_cache_files.variable_labels
  vfs_disk_cache_bytes_used : 2 ≡ length c.vfs_disk_cache_bytes_used.variable_labels
  vfs_disk_cache_files : 2 ≡ length c.vfs_disk_cache_files.variable_labels
  vfs_disk_cache_errors : 2 ≡ length c.vfs_disk_cache_errors.variable_labels
  vfs_uploads_in_progress : 2 ≡ length c.vfs_uploads_in_progress.variable_labels
  vfs_uploads_queued : 2 ≡ length c.vfs_uploads_queued.variable_labels
  vfs_disk_cache_out_of_space : 2 ≡ length c.vfs_disk_cache_out_of_space.variable_labels
  mount_healthy : 9 ≡ length c.mount_healthy.variable_labels
  remote_transfer_speed : 0 ≡ length c.remote_transfer_speed.variable_labels
  remote_transfer_eta : 0 ≡ length c.remote_transfer_eta.variable_labels
  remote_checks_total : 0 ≡ length c.remote_checks_total.variable_labels
  remote_deletes_total : 0 ≡ length c.remote_deletes_total.variable_labels
  remote_server_side_copies : 0 ≡ length c.remote_server_side_copies.variable_labels
  remote_server_side_moves : 0 ≡ length c.remote_server_side_moves.variable_labels
  remote_transferring : 0 ≡ length c.remote_transferring.variable_labels
  remote_checking : 0 ≡ length c.remote_checking.variable_labels

new_metrics_collector-Fits :
    (node_id driver_name endpoint : Text) (v : VersionInfo)
    → Fits (new_metrics_collector node_id driver_name endpoint v)
unfolding new_metrics_collector
new_metrics_collector-Fits node_id driver_name endpoint v = record {
  node_info = refl;
  vfs_in_use = refl;
  vfs_metadata_cache_dirs = refl;
  vfs_metadata_cache_files = refl;
  vfs_disk_cache_bytes_used = refl;
  vfs_disk_cache_files = refl;
  vfs_disk_cache_errors = refl;
  vfs_uploads_in_progress = refl;
  vfs_uploads_queued = refl;
  vfs_disk_cache_out_of_space = refl;
  mount_healthy = refl;
  remote_transfer_speed = refl;
  remote_transfer_eta = refl;
  remote_checks_total = refl;
  remote_deletes_total = refl;
  remote_server_side_copies = refl;
  remote_server_side_moves = refl;
  remote_transferring = refl;
  remote_checking = refl;
}

module _ {F : Type 0} (x : Scrape F) (c : Collector) (fits : Fits c) where
  Taken : List (Metric F) → Type 0
  Taken = All (IsTaken c)

  taken :
      {m : Metric F} (i : ℕ)
      → get_elem? (describe c) i ≡ some m.desc
      → length m.label_values ≡ length m.desc.variable_labels
      → IsTaken c m
  taken i e l = record { announced = (i, e); labelled = l }

  info-Taken : Taken (collect_node_info x c)
  unfolding collect_node_info Taken describe
  info-Taken = (taken 0 refl fits.node_info, tt)

  volume-Taken : (vs : VolumeMetrics) → Taken (emit_single_volume_metrics x c vs)
  unfolding emit_single_volume_metrics Taken describe
  volume-Taken vs = (
    taken 1 refl fits.vfs_in_use,
    (
      taken 2 refl fits.vfs_metadata_cache_dirs,
      (
        taken 3 refl fits.vfs_metadata_cache_files,
        (
          taken 4 refl fits.vfs_disk_cache_bytes_used,
          (
            taken 5 refl fits.vfs_disk_cache_files,
            (
              taken 6 refl fits.vfs_disk_cache_errors,
              (
                taken 7 refl fits.vfs_uploads_in_progress,
                (
                  taken 8 refl fits.vfs_uploads_queued,
                  (taken 9 refl fits.vfs_disk_cache_out_of_space, tt),
                ),
              ),
            ),
          ),
        ),
      ),
    ),
  )

  join : (l m : List (Metric F)) → Taken l → Taken m → Taken (l ++ m)
  unfolding Taken
  join l m hl hm = All-append _ l m hl hm

  volumes-Taken :
      (volume_stats : GoMap VolumeMetrics) → Taken (emit_volume_metrics x c volume_stats)
  unfolding emit_volume_metrics
  volumes-Taken [] = unfold Taken in tt
  volumes-Taken ((volume_id, vs) ∷ volume_stats) =
      join (emit_single_volume_metrics x c vs) _ (volume-Taken vs) (volumes-Taken volume_stats)

  health-Taken :
      (s : Node) (target_path : Text) (mc : MountContext) (p : Option MountPoint)
      → Taken (mount_health x c s target_path mc p)
  unfolding mount_health Taken describe
  health-Taken s target_path mc none = tt
  health-Taken s target_path mc (some p) = (taken 10 refl fits.mount_healthy, tt)

  healths-Taken :
      (s : Node) (contexts : GoMap MountContext)
      → Taken (collect_mount_health_metrics x c s contexts)
  unfolding collect_mount_health_metrics
  healths-Taken s [] = unfold Taken in tt
  healths-Taken s ((target_path, mc) ∷ contexts) =
      join (mount_health x c s target_path mc mc.mount_point) _
        (health-Taken s target_path mc mc.mount_point) (healths-Taken s contexts)

  vfs-Taken : (s : Option Node) → Taken (collect_vfs_metrics x c s)
  unfolding collect_vfs_metrics
  vfs-Taken none = unfold Taken in tt
  vfs-Taken (some s) =
      join (emit_volume_metrics x c (aggregate_volume_stats x.vfs_stats s.mount_context)) _
        (volumes-Taken _) (healths-Taken s s.mount_context)

  module _ (i : ℕ) {d : Desc} (at : get_elem? (describe c) i ≡ some d)
      (none_needed : 0 ≡ length d.variable_labels) (t : ValueType) where
    given-Taken : (o : Option F) → Taken (given o d t)
    unfolding Taken
    given-Taken none = tt
    given-Taken (some v) = (taken i at none_needed, tt)

    given_int-Taken : (o : Option ℤ) → Taken (given_int x o d t)
    unfolding Taken
    given_int-Taken none = tt
    given_int-Taken (some v) = (taken i at none_needed, tt)

    given_length-Taken : (o : Option ℕ) → Taken (given_length x o d t)
    unfolding Taken
    given_length-Taken none = tt
    given_length-Taken (some v) = (taken i at none_needed, tt)

  operations-Taken : (r : RemoteStats F) → Taken (emit_operation_metrics x c r)
  unfolding emit_operation_metrics describe
  operations-Taken r = join _ _ (given_int-Taken 13 refl fits.remote_checks_total _ r.checks) (
      join _ _ (given_int-Taken 14 refl fits.remote_deletes_total _ r.deletes) (
        join _ _ (given_int-Taken 15 refl fits.remote_server_side_copies _ r.server_side_copies) (
          join _ _ (given_int-Taken 16 refl fits.remote_server_side_moves _ r.server_side_moves) (
            join _ _ (given_length-Taken 17 refl fits.remote_transferring _ r.transferring)
              (given_length-Taken 18 refl fits.remote_checking _ r.checking)))))

  transfers-Taken : (r : RemoteStats F) → Taken (emit_transfer_metrics c r)
  unfolding emit_transfer_metrics describe
  transfers-Taken r =
      join _ _ (given-Taken 11 refl fits.remote_transfer_speed _ r.speed)
        (given-Taken 12 refl fits.remote_transfer_eta _ r.eta)

  remote-Taken : (r : Result Text (RemoteStats F)) → Taken (remote_metrics x c r)
  unfolding remote_metrics
  remote-Taken (ok r) =
      join (emit_transfer_metrics c r) (emit_operation_metrics x c r) (transfers-Taken r)
        (operations-Taken r)
  remote-Taken (err e) = unfold Taken in tt

  all-Taken : (s : Option Node) → Taken (collect x (some c) s)
  unfolding collect collect_remote_stats
  all-Taken s =
      join (collect_node_info x c) _ info-Taken
        (join (collect_vfs_metrics x c s) _ (vfs-Taken s) (remote-Taken x.remote_stats))

-- Every metric that a scrape of the driver's collector sends has a description that `Describe`
-- announces, and as many label values as that description has labels: whatever is mounted, and
-- whatever the stats, the health checks and the accounting answer.
pub collect-IsTaken :
    {F : Type 0} (x : Scrape F) (node_id driver_name endpoint : Text) (v : VersionInfo)
    (s : Option Node)
    → All
        (IsTaken (new_metrics_collector node_id driver_name endpoint v))
        (collect x (some (new_metrics_collector node_id driver_name endpoint v)) s)
unfolding Taken
collect-IsTaken x node_id driver_name endpoint v s =
    all-Taken x (new_metrics_collector node_id driver_name endpoint v)
      (new_metrics_collector-Fits node_id driver_name endpoint v) s
