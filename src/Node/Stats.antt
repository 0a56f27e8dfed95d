-- ===== src/Node/Stats.antt =====
-- `NodeGetVolumeStats`, `isMountHealthy` and the constant methods of the node service.
pub mod Normal
use csi_driver_rclone.Prelude.{
  ℕ, zero, suc, ◌↔◌, sym, subst, ap, ◌∙◌, Bool-cases, inl, inr, false≢true, ℤ, pos, ◌-◌, ◌*◌, ◌<◌,
  ◌≤◌, ◌≡◌, refl, arith, Bool, true, false, not, Option, none, some, List, [], ◌∷◌, ◌++◌, Result,
  ok, err, if◌then◌else◌, is_positive, half_word, int64_of, mul_word, sub_word, int64_of_small,
  sub_word_small, mod_word_small,
}
use csi_driver_rclone.Text.{Text, codes, is_empty}
use csi_driver_rclone.GoMap.{get}
use csi_driver_rclone.Status.{Reply, error, invalid_argument, unimplemented}
use csi_driver_rclone.Node.Calls.{Node, MountContext, MountPoint}
use csi_driver_rclone.Node.Volume.{get_mount_context}

-- The fields of `unix.Statfs_t` that are read, as 64-bit words.
pub record Statfs : Type 0 where
  pub bsize : ℕ
  pub blocks : ℕ
  pub bavail : ℕ
  pub bfree : ℕ
  pub files : ℕ
  pub ffree : ℕ

pub data UsageUnit : Type 0 where
  bytes inodes : UsageUnit

pub record VolumeUsage : Type 0 where
  pub available : ℤ
  pub total : ℤ
  pub used : ℤ
  pub unit : UsageUnit

pub record VolumeStats : Type 0 where
  pub usage : List VolumeUsage
  pub abnormal : Bool
  pub message : Text

unfoldable pub byte_usage : Statfs → VolumeUsage
unfolding mul_word sub_word int64_of
byte_usage s =
    let total_bytes = mul_word s.blocks s.bsize in
    let available_bytes = mul_word s.bavail s.bsize in
    let free_bytes = mul_word s.bfree s.bsize in
    record {
      available = int64_of available_bytes;
      total = int64_of total_bytes;
      used = int64_of (sub_word total_bytes free_bytes);
      unit = bytes;
    }

unfoldable inode_usage : Statfs → List VolumeUsage
unfolding sub_word int64_of
inode_usage s =
    if is_positive (int64_of s.files)
    then record {
      available = int64_of s.ffree;
      total = int64_of s.files;
      used = int64_of (sub_word s.files s.ffree);
      unit = inodes;
    }
      ∷ []
    else []

-- What the checks of health ask: the directory, the entry `errors` of the stats of a mount, and how a
-- number is printed.
pub record Health : Type 0 where
  pub read_dir : Text → Result Text (Unit {0})
  pub vfs_errors : ℕ → Option ℤ
  pub show : ℤ → Text

unfoldable pub errors_found : Health → Option ℤ → Bool × Text
errors_found h none = (true, [])
errors_found h (some n) =
    if is_positive n then (false, codes "VFS errors detected: " ++ h.show n) else (true, [])

unfoldable pub point_health : Health → Option MountPoint → Bool × Text
unfolding errors_found
point_health h none = (true, [])
point_health h (some p) = if p.vfs then errors_found h (h.vfs_errors p.id) else (true, [])

unfoldable pub context_health : Health → Option MountContext → Bool × Text
unfolding point_health
context_health h none = (true, [])
context_health h (some mc) = point_health h mc.mount_point

abbrev pub readable_health : Result Text (Unit {0}) → Bool × Text → Bool × Text
readable_health (err e) rest = (false, codes "mount point not accessible: " ++ e)
readable_health (ok _) rest = rest

unfoldable pub is_mount_healthy : Health → Node → Text → Bool × Text
unfolding context_health
is_mount_healthy h s target_path =
    readable_health (h.read_dir target_path) (context_health h (get_mount_context s target_path))

unfoldable pub stats_of : Result Text Statfs → Bool × Text → VolumeStats
unfolding byte_usage inode_usage
stats_of (err e) health = record {
  usage = [];
  abnormal = true;
  message = codes "Failed to get filesystem statistics: " ++ e;
}
stats_of (ok f) (healthy, health_message) = record {
  usage = byte_usage f ∷ inode_usage f;
  abnormal = not healthy;
  message = if healthy then codes "Volume is healthy and accessible" else health_message;
}

unfoldable pub node_get_volume_stats :
    Health → (Text → Result Text Statfs) → Node → Text → Reply VolumeStats
unfolding is_mount_healthy stats_of
node_get_volume_stats h statfs s volume_path =
    if is_empty volume_path
    then err (error invalid_argument (codes "volume path is required"))
    else ok (stats_of (statfs volume_path) (is_mount_healthy h s volume_path))

mul_le : (a b c : ℕ) → a ≤ b → a * c ≤ b * c
mul_le a b zero h = omega arith
mul_le a b (suc c) h = omega (arith, mul_le a b c h)

-- Where the size of the file system in bytes is below 2 ^ 63, and no more blocks are free or available
-- than there are, the byte usage is exact: nothing wraps around, and the bytes used are the total less the
-- free bytes.
pub byte_usage_exact :
    (s : Statfs)
    → s.blocks * s.bsize < half_word
    → s.bfree ≤ s.blocks
    → s.bavail ≤ s.blocks
    → byte_usage s ≡ record {
      available = pos (s.bavail * s.bsize);
      total = pos (s.blocks * s.bsize);
      used = pos (s.blocks * s.bsize - s.bfree * s.bsize);
      unit = bytes;
    }
unfolding byte_usage mul_word
byte_usage_exact s h free avail = rw (
  mod_word_small (s.blocks * s.bsize) h,
  mod_word_small (s.bfree * s.bsize) (omega (arith, f)),
  mod_word_small (s.bavail * s.bsize) (omega (arith, a)),
  sub_word_small (s.blocks * s.bsize) (s.bfree * s.bsize) h f,
  int64_of_small (s.blocks * s.bsize) h,
  int64_of_small (s.bavail * s.bsize) (omega (arith, a)),
  int64_of_small (s.blocks * s.bsize - s.bfree * s.bsize) (omega (arith, h)),
)
  where
    f : s.bfree * s.bsize ≤ s.blocks * s.bsize
    f = mul_le s.bfree s.blocks s.bsize free

    a : s.bavail * s.bsize ≤ s.blocks * s.bsize
    a = mul_le s.bavail s.blocks s.bsize avail

-- The methods that the node service does not implement.
unfoldable node_stage_volume : Reply (Unit {0})
node_stage_volume = err (error unimplemented [])

unfoldable node_unstage_volume : Reply (Unit {0})
node_unstage_volume = err (error unimplemented [])

unfoldable node_expand_volume : Reply (Unit {0})
node_expand_volume = err (error unimplemented [])
