-- ===== src/Witnesses/Metrics.antt =====
-- The metrics collector on two mounts of one volume.
use csi_driver_rclone.Prelude.{
  ℕ, ◌≡◌, refl, Bool, true, false, none, some, [], ◌∷◌, err, pos, All, word, ◌%◌, inl,
}
use csi_driver_rclone.Text.{codes}
use csi_driver_rclone.GoMap.{GoMap, get}
use csi_driver_rclone.Version.{Build, VersionInfo, get_version}
use csi_driver_rclone.Node.Calls.{Node, MountContext, MountPoint}
use csi_driver_rclone.RwMutex.{Pair, Reach, start_pair, IsDeadlock}
use csi_driver_rclone.Metrics.Descs.{new_metrics_collector}
use csi_driver_rclone.Metrics.Volumes.{VfsStats, aggregate_volume_stats}
use csi_driver_rclone.Metrics.Volumes.Totals.{
  uploads_queued, contributed, is_given, is_served, reading, aggregate_volume_stats-totals,
}
use csi_driver_rclone.Metrics.Collect.{Scrape, collect}
use csi_driver_rclone.Metrics.Collect.Labels.{IsTaken, collect-IsTaken}
use csi_driver_rclone.Metrics.Deadlock.{collect_vfs_metrics_ops, update_ops, scrape-IsDeadlock}
use csi_driver_rclone.Witnesses.Services.{sample_health}

abbrev pub sample_point : ℕ → MountPoint
sample_point id = record {
  id = id;
  target = codes "/t";
  mount_opt = record { device_name = []; volume_name = []; daemon = false; daemon_wait = pos 0 };
  vfs_opt = record { read_only = false };
  vfs = true;
}

abbrev pub point_context : ℕ → MountContext
point_context id = record {
  mount_point = some (sample_point id);
  remote_name = codes "s3";
  remotes = codes "s3" ∷ [];
  cancel_func = some 0;
}

-- Two pods that use the volume `pv`.
abbrev two_mounts : GoMap MountContext
two_mounts =
    (codes "/pods/a/volumes/kubernetes.io~csi/pv/mount", point_context 1)
    ∷ (codes "/pods/b/volumes/kubernetes.io~csi/pv/mount", point_context 2)
    ∷ []

abbrev sample_stats : ℕ → VfsStats
sample_stats id = record {
  in_use = some id;
  metadata_cache = none;
  disk_cache = some (record {
    bytes_used = some 4096;
    files = none;
    errored_files = some 0;
    uploads_in_progress = some 1;
    uploads_queued = some 5;
    out_of_space = some false;
  });
}

abbrev mounted_node : Node
mounted_node = record {
  mount_context = two_mounts;
  volume_locks = record { locks = [] };
  trace = [];
}

aggregate_volume_stats-totals_example :
    (is_given (get (aggregate_volume_stats sample_stats two_mounts) (codes "pv"))
      ≡ is_served (codes "pv") two_mounts)
    × (reading uploads_queued (get (aggregate_volume_stats sample_stats two_mounts) (codes "pv"))
        ≡ contributed uploads_queued sample_stats (codes "pv") two_mounts % word)
aggregate_volume_stats-totals_example =
    aggregate_volume_stats-totals uploads_queued sample_stats (codes "pv") two_mounts

abbrev pub sample_build : Build
sample_build = record {
  driver_version = codes "v1";
  rclone_version = codes "v1.71";
  git_commit = codes "c";
  build_date = codes "d";
  go_version = codes "go1";
  compiler = codes "gc";
  goos = codes "linux";
  goarch = codes "amd64";
}

abbrev sample_version : VersionInfo
sample_version = get_version sample_build (codes "rclone.csi.veloxpack.io")

abbrev sample_scrape : Scrape Bool
sample_scrape = record {
  float64 = λ n. true;
  health = sample_health;
  vfs_stats = sample_stats;
  remote_stats = err (codes "none");
  mounted_for = λ p. codes "9";
}

collect-IsTaken_example :
    All (IsTaken (new_metrics_collector (codes "n") (codes "d") (codes "e") sample_version)) (
      collect sample_scrape
        (some (new_metrics_collector (codes "n") (codes "d") (codes "e") sample_version))
        (some mounted_node))
collect-IsTaken_example =
    collect-IsTaken sample_scrape (codes "n") (codes "d") (codes "e") sample_version
      (some mounted_node)

scrape-IsDeadlock_example :
    (s : Pair) × Reach (start_pair (collect_vfs_metrics_ops (λ path. true) two_mounts) update_ops) s
    × IsDeadlock s
scrape-IsDeadlock_example =
    scrape-IsDeadlock (λ path. true) two_mounts (inl (sample_point 1, refl, refl))
