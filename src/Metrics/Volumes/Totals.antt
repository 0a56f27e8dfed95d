-- ===== src/Metrics/Volumes/Totals.antt =====
-- What the counts of a volume amount to: the sums over its mounts.
use csi_driver_rclone.Prelude.{
  ℕ, ◌+◌, ◌%◌, ◌<◌, ◌≡◌, refl, arith, Bool, true, false, ◌||◌, Option, none, some, [], ◌∷◌, word,
  add_word, if◌then◌else◌, Bool-cases, inl, inr,
}
use csi_driver_rclone.Text.{Text, text_eq}
use csi_driver_rclone.GoMap.{GoMap, get, put}
use csi_driver_rclone.GoMap.Laws.{get-put, get-put_self}
use csi_driver_rclone.Text.Eq.{text_eq_iff, text_eq_refl}
use csi_driver_rclone.Node.Calls.{MountContext, MountPoint}
use csi_driver_rclone.Metrics.{extract_volume_id}
use csi_driver_rclone.Metrics.Volumes.{
  VolumeMetrics, VfsStats, MetadataCacheStats, DiskCacheStats, plus, add_metadata, add_disk, or_new,
  aggregate_vfs_stats, add_mount, add_mounts, aggregate_volume_stats,
}

-- The numbers of a volume.
pub data Counter : Type 0 where
  in_use metadata_cache_dirs metadata_cache_files disk_cache_bytes_used : Counter
  disk_cache_files disk_cache_errors uploads_in_progress uploads_queued : Counter

abbrev pub counter : Counter → VolumeMetrics → ℕ
counter in_use vm = vm.in_use
counter metadata_cache_dirs vm = vm.metadata_cache_dirs
counter metadata_cache_files vm = vm.metadata_cache_files
counter disk_cache_bytes_used vm = vm.disk_cache_bytes_used
counter disk_cache_files vm = vm.disk_cache_files
counter disk_cache_errors vm = vm.disk_cache_errors
counter uploads_in_progress vm = vm.uploads_in_progress
counter uploads_queued vm = vm.uploads_queued

abbrev number : Option ℕ → ℕ
number none = 0
number (some n) = n

-- What the stats of one mount say of a number: nothing is 0.
abbrev handle_stat : Counter → Option ℕ → ℕ
handle_stat in_use o = number o
handle_stat _ o = 0

abbrev metadata_stat : Counter → Option MetadataCacheStats → ℕ
metadata_stat _ none = 0
metadata_stat metadata_cache_dirs (some cache) = number cache.dirs
metadata_stat metadata_cache_files (some cache) = number cache.files
metadata_stat _ (some cache) = 0

abbrev disk_stat : Counter → Option DiskCacheStats → ℕ
disk_stat _ none = 0
disk_stat disk_cache_bytes_used (some cache) = number cache.bytes_used
disk_stat disk_cache_files (some cache) = number cache.files
disk_stat disk_cache_errors (some cache) = number cache.errored_files
disk_stat uploads_in_progress (some cache) = number cache.uploads_in_progress
disk_stat uploads_queued (some cache) = number cache.uploads_queued
disk_stat _ (some cache) = 0

abbrev pub stat : Counter → VfsStats → ℕ
stat c s = handle_stat c s.in_use + metadata_stat c s.metadata_cache + disk_stat c s.disk_cache

plus_lem : (n : ℕ) (o : Option ℕ) → n < word → plus n o ≡ (n + number o) % word
unfolding add_word
plus_lem n none h = omega arith
plus_lem n (some k) h = refl

same_word : (n : ℕ) → n < word → n ≡ (n + 0) % word
same_word n h = omega arith

counter-handles :
    (c : Counter) (o : Option ℕ) (vm : VolumeMetrics)
    → counter c vm < word
    → counter c (record vm { in_use = plus vm.in_use o }) ≡ (counter c vm + handle_stat c o) % word
counter-handles in_use o vm h = plus_lem vm.in_use o h
counter-handles _ o vm h = same_word _ h

counter-add_metadata :
    (c : Counter) (o : Option MetadataCacheStats) (vm : VolumeMetrics)
    → counter c vm < word
    → counter c (add_metadata o vm) ≡ (counter c vm + metadata_stat c o) % word
counter-add_metadata metadata_cache_dirs (some cache) vm h = plus_lem _ cache.dirs h
counter-add_metadata metadata_cache_files (some cache) vm h = plus_lem _ cache.files h
counter-add_metadata _ (some cache) vm h = same_word _ h
counter-add_metadata _ none vm h = same_word _ h

counter-add_disk :
    (c : Counter) (o : Option DiskCacheStats) (vm : VolumeMetrics)
    → counter c vm < word
    → counter c (add_disk o vm) ≡ (counter c vm + disk_stat c o) % word
counter-add_disk disk_cache_bytes_used (some cache) vm h = plus_lem _ cache.bytes_used h
counter-add_disk disk_cache_files (some cache) vm h = plus_lem _ cache.files h
counter-add_disk disk_cache_errors (some cache) vm h = plus_lem _ cache.errored_files h
counter-add_disk uploads_in_progress (some cache) vm h = plus_lem _ cache.uploads_in_progress h
counter-add_disk uploads_queued (some cache) vm h = plus_lem _ cache.uploads_queued h
counter-add_disk _ (some cache) vm h = same_word _ h
counter-add_disk _ none vm h = same_word _ h

mod_word_lt : (n : ℕ) → n % word < word
mod_word_lt n = omega arith

-- The stats of one mount are added to the counts, with the wrap-around of a word.
counter-aggregate :
    (c : Counter) (s : VfsStats) (vm : VolumeMetrics)
    → counter c vm < word
    → counter c (aggregate_vfs_stats s vm) ≡ (counter c vm + stat c s) % word
unfolding aggregate_vfs_stats
counter-aggregate c s vm h =
    let vm1 = record vm { in_use = plus vm.in_use s.in_use } in
    let vm2 = add_metadata s.metadata_cache vm1 in
    let e1 = counter-handles c s.in_use vm h in
    let b1 : counter c vm1 < word = rw e1 (mod_word_lt _) in
    let e2 = counter-add_metadata c s.metadata_cache vm1 b1 in
    let b2 : counter c vm2 < word = rw e2 (mod_word_lt _) in
    let e3 = counter-add_disk c s.disk_cache vm2 b2 in omega (arith, e1, e2, e3)

-- What the mounts of the volume `v` add to a number, counted over all mounts that have a VFS.
abbrev pub share : Counter → (ℕ → VfsStats) → Text → Text → Option MountPoint → ℕ
share c stats v volume_id none = 0
share c stats v volume_id (some p) =
    if p.vfs then (if text_eq volume_id v then stat c (stats p.id) else 0) else 0

abbrev pub contributed : Counter → (ℕ → VfsStats) → Text → GoMap MountContext → ℕ
contributed c stats v [] = 0
contributed c stats v ((target_path, mc) ∷ contexts) =
    share c stats v (extract_volume_id target_path) mc.mount_point + contributed c stats v contexts

abbrev pub reading : Counter → Option VolumeMetrics → ℕ
reading c none = 0
reading c (some vm) = counter c vm

counter-or_new :
    (c : Counter) (o : Option VolumeMetrics) (volume_id remote_name : Text)
    → counter c (or_new o volume_id remote_name) ≡ reading c o
counter-or_new in_use none volume_id remote_name = refl
counter-or_new _ none volume_id remote_name = refl
counter-or_new _ (some vm) volume_id remote_name = refl

module _ (c : Counter) (stats : ℕ → VfsStats) (v : Text) where
  reading-put_self :
      (remote_name : Text) (s : VfsStats) (acc : GoMap VolumeMetrics)
      → reading c (get acc v) < word
      → reading c (get (put acc v (aggregate_vfs_stats s (or_new (get acc v) v remote_name))) v)
        ≡ (reading c (get acc v) + (if text_eq v v then stat c s else 0)) % word
  reading-put_self remote_name s acc h =
      let e = counter-or_new c (get acc v) v remote_name in
      rw (text_eq_refl v, get-put_self, ← e)
        (counter-aggregate c s (or_new (get acc v) v remote_name) (rw e h))

  reading-put :
      (volume_id remote_name : Text) (s : VfsStats) (acc : GoMap VolumeMetrics)
      → reading c (get acc v) < word
      → reading c (
          get
            (put acc volume_id
              (aggregate_vfs_stats s (or_new (get acc volume_id) volume_id remote_name)))
            v)
        ≡ (reading c (get acc v) + (if text_eq volume_id v then stat c s else 0)) % word
  reading-put volume_id remote_name s acc h = elim (Bool-cases (text_eq volume_id v)) [
    | inl e ↦ rw ((text_eq_iff volume_id v).0 e) (reading-put_self remote_name s acc h)
    | inr e ↦ rw (get-put, e) (same_word _ h)
  ]

  reading-add_mount :
      (volume_id remote_name : Text) (o : Option MountPoint) (acc : GoMap VolumeMetrics)
      → reading c (get acc v) < word
      → reading c (get (add_mount stats volume_id remote_name o acc) v)
        ≡ (reading c (get acc v) + share c stats v volume_id o) % word
  unfolding add_mount
  reading-add_mount volume_id remote_name none acc h = same_word _ h
  reading-add_mount volume_id remote_name (some p) acc h = elim (Bool-cases p.vfs) [
    | inl e ↦ rw e (reading-put volume_id remote_name (stats p.id) acc h)
    | inr e ↦ rw e (same_word _ h)
  ]

  reading-add_mounts :
      (contexts : GoMap MountContext) (acc : GoMap VolumeMetrics)
      → reading c (get acc v) < word
      → reading c (get (add_mounts stats contexts acc) v)
        ≡ (reading c (get acc v) + contributed c stats v contexts) % word
  unfolding add_mounts
  reading-add_mounts [] acc h = same_word _ h
  reading-add_mounts ((target_path, mc) ∷ contexts) acc h =
      let volume_id = extract_volume_id target_path in
      let e = reading-add_mount volume_id mc.remote_name mc.mount_point acc h in
      omega (
        arith,
        e,
        reading-add_mounts contexts (add_mount stats volume_id mc.remote_name mc.mount_point acc)
            (rw e (mod_word_lt _)),
      )

-- Is it a mount of the volume `v`, with a VFS?
abbrev pub serves : Text → Text → Option MountPoint → Bool
serves v volume_id none = false
serves v volume_id (some p) = if p.vfs then text_eq volume_id v else false

-- Is there one?
abbrev pub is_served : Text → GoMap MountContext → Bool
is_served v [] = false
is_served v ((target_path, mc) ∷ contexts) =
    serves v (extract_volume_id target_path) mc.mount_point || is_served v contexts

abbrev pub is_given : Option VolumeMetrics → Bool
is_given none = false
is_given (some vm) = true

module _ (stats : ℕ → VfsStats) (v : Text) where
  is_given-put :
      (volume_id : Text) (vm : VolumeMetrics) (acc : GoMap VolumeMetrics)
      → is_given (get (put acc volume_id vm) v) ≡ (text_eq volume_id v || is_given (get acc v))
  is_given-put volume_id vm acc = elim (Bool-cases (text_eq volume_id v)) [
    | inl e ↦ rw (get-put, e) refl
    | inr e ↦ rw (get-put, e) refl
  ]

  is_given-add_mount :
      (volume_id remote_name : Text) (o : Option MountPoint) (acc : GoMap VolumeMetrics)
      → is_given (get (add_mount stats volume_id remote_name o acc) v)
        ≡ (serves v volume_id o || is_given (get acc v))
  unfolding add_mount
  is_given-add_mount volume_id remote_name none acc = refl
  is_given-add_mount volume_id remote_name (some p) acc = elim (Bool-cases p.vfs) [
    | inl e ↦ rw e (is_given-put volume_id _ acc)
    | inr e ↦ rw e refl
  ]

  is_given-add_mounts :
      (contexts : GoMap MountContext) (acc : GoMap VolumeMetrics)
      → is_given (get (add_mounts stats contexts acc) v)
        ≡ (is_served v contexts || is_given (get acc v))
  unfolding add_mounts
  is_given-add_mounts [] acc = refl
  is_given-add_mounts ((target_path, mc) ∷ contexts) acc =
      let volume_id = extract_volume_id target_path in
      ground (
        arith,
        is_given-add_mount volume_id mc.remote_name mc.mount_point acc,
        is_given-add_mounts contexts (add_mount stats volume_id mc.remote_name mc.mount_point acc),
      )

-- A volume has metrics exactly where some mount of it has a VFS; and each number of each volume, which is
-- 0 for a volume without metrics, is the sum of that number over all the mounts of the volume that have a
-- VFS, with the wrap-around of a 64-bit word.
pub aggregate_volume_stats-totals :
    (c : Counter) (stats : ℕ → VfsStats) (v : Text) (contexts : GoMap MountContext)
    → (is_given (get (aggregate_volume_stats stats contexts) v) ≡ is_served v contexts)
      × (reading c (get (aggregate_volume_stats stats contexts) v)
          ≡ contributed c stats v contexts % word)
unfolding aggregate_volume_stats get
aggregate_volume_stats-totals c stats v contexts = (
  ground (arith, is_given-add_mounts stats v contexts []),
  omega (arith, reading-add_mounts c stats v contexts [] (omega arith)),
)
