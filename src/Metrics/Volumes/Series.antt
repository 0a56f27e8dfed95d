-- ===== src/Metrics/Volumes/Series.antt =====
-- One set of metrics for each volume: no ID stands twice, and each is that of its metrics.
use csi_driver_rclone.Prelude.{
  ℕ, ◌≡◌, refl, Option, none, some, [], ◌∷◌, All, Bool-cases, inl, inr, ◌∙◌,
}
use csi_driver_rclone.Text.{Text, text_eq}
use csi_driver_rclone.GoMap.{GoMap, get, put, IsMap}
use csi_driver_rclone.GoMap.Laws.{put-IsMap}
use csi_driver_rclone.Text.Eq.{text_eq_iff}
use csi_driver_rclone.Node.Calls.{MountContext, MountPoint}
use csi_driver_rclone.Metrics.{extract_volume_id}
use csi_driver_rclone.Metrics.Volumes.{
  VolumeMetrics, VfsStats, MetadataCacheStats, DiskCacheStats, add_metadata, add_disk, or_new, plus,
  aggregate_vfs_stats, add_mount, add_mounts, aggregate_volume_stats,
}

abbrev pub IsOwn : Text × VolumeMetrics → Type 0
IsOwn (volume_id, vm) = vm.volume_id ≡ volume_id

-- The metrics of different volumes are told apart by their label `volume_id`.
pub record IsSeries (volume_stats : GoMap VolumeMetrics) : Type 0 where
  pub keys : IsMap volume_stats
  pub own : All IsOwn volume_stats

metadata-id :
    (o : Option MetadataCacheStats) (vm : VolumeMetrics)
    → (add_metadata o vm).volume_id ≡ vm.volume_id
metadata-id none vm = refl
metadata-id (some cache) vm = refl

disk-id :
    (o : Option DiskCacheStats) (vm : VolumeMetrics) → (add_disk o vm).volume_id ≡ vm.volume_id
disk-id none vm = refl
disk-id (some cache) vm = refl

aggregate-id :
    (s : VfsStats) (vm : VolumeMetrics) → (aggregate_vfs_stats s vm).volume_id ≡ vm.volume_id
unfolding aggregate_vfs_stats
aggregate-id s vm =
    let vm1 = record vm { in_use = plus vm.in_use s.in_use } in
    rw (disk-id s.disk_cache (add_metadata s.metadata_cache vm1)) (metadata-id s.metadata_cache vm1)

All-put :
    (m : GoMap VolumeMetrics) (volume_id : Text) (vm : VolumeMetrics)
    → All IsOwn m
    → vm.volume_id ≡ volume_id
    → All IsOwn (put m volume_id vm)
unfolding put
All-put [] volume_id vm h e = (e, tt)
All-put ((j, w) ∷ m) volume_id vm (hj, h) e = elim (Bool-cases (text_eq j volume_id)) [
  | inl y ↦ rw y (e, h)
  | inr n ↦ rw n (hj, All-put m volume_id vm h e)
]

or_new-id :
    (m : GoMap VolumeMetrics) (volume_id remote_name : Text)
    → All IsOwn m
    → (or_new (get m volume_id) volume_id remote_name).volume_id ≡ volume_id
unfolding get
or_new-id [] volume_id remote_name h = refl
or_new-id ((j, w) ∷ m) volume_id remote_name (hj, h) = elim (Bool-cases (text_eq j volume_id)) [
  | inl y ↦ rw (y, or_new) (hj ∙ (text_eq_iff j volume_id).0 y)
  | inr n ↦ rw n (or_new-id m volume_id remote_name h)
]

module _ (stats : ℕ → VfsStats) where
  add_mount-IsSeries :
      (volume_id remote_name : Text) (o : Option MountPoint) (acc : GoMap VolumeMetrics)
      → IsSeries acc
      → IsSeries (add_mount stats volume_id remote_name o acc)
  unfolding add_mount
  add_mount-IsSeries volume_id remote_name none acc h = h
  add_mount-IsSeries volume_id remote_name (some p) acc h = elim (Bool-cases p.vfs) [
    | inl y ↦ rw y (record {
      keys = put-IsMap acc volume_id _ h.keys;
      own = All-put acc volume_id _ h.own (
          aggregate-id (stats p.id) (or_new (get acc volume_id) volume_id remote_name)
          ∙ or_new-id acc volume_id remote_name h.own);
    })
    | inr n ↦ rw n h
  ]

  add_mounts-IsSeries :
      (contexts : GoMap MountContext) (acc : GoMap VolumeMetrics)
      → IsSeries acc
      → IsSeries (add_mounts stats contexts acc)
  unfolding add_mounts
  add_mounts-IsSeries [] acc h = h
  add_mounts-IsSeries ((target_path, mc) ∷ contexts) acc h =
      add_mounts-IsSeries contexts _
        (add_mount-IsSeries (extract_volume_id target_path) mc.remote_name mc.mount_point acc h)

-- Whatever is mounted, no volume ID stands twice among the aggregated metrics, and each stands with
-- the metrics that are labelled by it.
pub aggregate_volume_stats-IsSeries :
    (stats : ℕ → VfsStats) (contexts : GoMap MountContext)
    → IsSeries (aggregate_volume_stats stats contexts)
unfolding aggregate_volume_stats
aggregate_volume_stats-IsSeries stats contexts =
    add_mounts-IsSeries stats contexts [] (record { keys = tt; own = tt })
