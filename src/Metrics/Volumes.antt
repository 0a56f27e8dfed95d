-- ===== src/Metrics/Volumes.antt =====
-- The counts of one volume over all its mounts: `aggregateVolumeStats` and the functions below it.
pub mod Totals
pub mod Series
use csi_driver_rclone.Prelude.{
  ℕ, Bool, true, false, ◌||◌, Option, none, some, List, [], ◌∷◌, add_word, if◌then◌else◌,
}
use csi_driver_rclone.Text.{Text}
use csi_driver_rclone.GoMap.{GoMap, get, put}
use csi_driver_rclone.Node.Calls.{MountContext, MountPoint}
use csi_driver_rclone.Metrics.{extract_volume_id}

-- `vm` as it is made for the first mount of a volume, and filled by all. A number is a 64-bit word.
pub record VolumeMetrics : Type 0 where
  pub volume_id : Text
  pub remote_name : Text
  pub in_use : ℕ
  pub metadata_cache_dirs : ℕ
  pub metadata_cache_files : ℕ
  pub disk_cache_bytes_used : ℕ
  pub disk_cache_files : ℕ
  pub disk_cache_errors : ℕ
  pub uploads_in_progress : ℕ
  pub uploads_queued : ℕ
  pub disk_cache_out_of_space : Bool

-- `VFS.Stats()`: an entry is `none` where it is missing or not of the type that is asked for, and a
-- number is the word of its `int`.
pub record MetadataCacheStats : Type 0 where
  pub dirs : Option ℕ
  pub files : Option ℕ

pub record DiskCacheStats : Type 0 where
  pub bytes_used : Option ℕ
  pub files : Option ℕ
  pub errored_files : Option ℕ
  pub uploads_in_progress : Option ℕ
  pub uploads_queued : Option ℕ
  pub out_of_space : Option Bool

pub record VfsStats : Type 0 where
  pub in_use : Option ℕ
  pub metadata_cache : Option MetadataCacheStats
  pub disk_cache : Option DiskCacheStats

-- `if n, ok := …; ok { total += n }`
abbrev pub plus : ℕ → Option ℕ → ℕ
unfolding add_word
plus total none = total
plus total (some n) = add_word total n

abbrev pub or_flag : Bool → Option Bool → Bool
or_flag flag none = flag
or_flag flag (some b) = if b then true else flag

abbrev add_metadata : Option MetadataCacheStats → VolumeMetrics → VolumeMetrics
add_metadata none vm = vm
add_metadata (some cache) vm = record vm {
  metadata_cache_dirs = plus vm.metadata_cache_dirs cache.dirs;
  metadata_cache_files = plus vm.metadata_cache_files cache.files;
}

abbrev add_disk : Option DiskCacheStats → VolumeMetrics → VolumeMetrics
add_disk none vm = vm
add_disk (some cache) vm = record vm {
  disk_cache_bytes_used = plus vm.disk_cache_bytes_used cache.bytes_used;
  disk_cache_files = plus vm.disk_cache_files cache.files;
  disk_cache_errors = plus vm.disk_cache_errors cache.errored_files;
  uploads_in_progress = plus vm.uploads_in_progress cache.uploads_in_progress;
  uploads_queued = plus vm.uploads_queued cache.uploads_queued;
  disk_cache_out_of_space = or_flag vm.disk_cache_out_of_space cache.out_of_space;
}

unfoldable pub aggregate_disk_cache_stats : VfsStats → VolumeMetrics → VolumeMetrics
aggregate_disk_cache_stats stats vm = add_disk stats.disk_cache vm

unfoldable pub aggregate_vfs_stats : VfsStats → VolumeMetrics → VolumeMetrics
unfolding aggregate_disk_cache_stats
aggregate_vfs_stats stats vm =
    aggregate_disk_cache_stats stats
      (add_metadata stats.metadata_cache (record vm { in_use = plus vm.in_use stats.in_use }))

abbrev pub new_volume_metrics : Text → Text → VolumeMetrics
new_volume_metrics volume_id remote_name = record {
  volume_id = volume_id;
  remote_name = remote_name;
  in_use = 0;
  metadata_cache_dirs = 0;
  metadata_cache_files = 0;
  disk_cache_bytes_used = 0;
  disk_cache_files = 0;
  disk_cache_errors = 0;
  uploads_in_progress = 0;
  uploads_queued = 0;
  disk_cache_out_of_space = false;
}

abbrev pub or_new : Option VolumeMetrics → Text → Text → VolumeMetrics
or_new none volume_id remote_name = new_volume_metrics volume_id remote_name
or_new (some vm) volume_id remote_name = vm

-- One mount context; one without a mount point, or with a mount point without a VFS, is passed over.
unfoldable pub add_mount :
    (ℕ → VfsStats) → Text → Text → Option MountPoint → GoMap VolumeMetrics → GoMap VolumeMetrics
add_mount stats volume_id remote_name none volume_stats = volume_stats
add_mount stats volume_id remote_name (some p) volume_stats =
    if p.vfs
    then put volume_stats volume_id (
        aggregate_vfs_stats (stats p.id)
          (or_new (get volume_stats volume_id) volume_id remote_name))
    else volume_stats

-- The loop, in the order of the list.
unfoldable pub add_mounts :
    (ℕ → VfsStats) → GoMap MountContext → GoMap VolumeMetrics → GoMap VolumeMetrics
add_mounts stats [] volume_stats = volume_stats
add_mounts stats ((target_path, mc) ∷ contexts) volume_stats =
    add_mounts stats contexts
      (add_mount stats (extract_volume_id target_path) mc.remote_name mc.mount_point volume_stats)

-- `stats` answers `VFS.Stats()` for the number of a mount.
unfoldable pub aggregate_volume_stats : (ℕ → VfsStats) → GoMap MountContext → GoMap VolumeMetrics
unfolding add_mounts
aggregate_volume_stats stats contexts = add_mounts stats contexts []
