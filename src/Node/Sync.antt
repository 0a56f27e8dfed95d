-- ===== src/Node/Sync.antt =====
-- `waitForVFSCacheSync`: waiting for the uploads of the VFS cache before an unmount.
pub mod Bounds
use csi_driver_rclone.Prelude.{
  ℕ, zero, suc, ◌+◌, ◌*◌, ◌^◌, Bool, true, false, ◌&&◌, ◌||◌, not, Option, none, some, ok, ltb,
  if◌then◌else◌, is_positive,
}
use csi_driver_rclone.Node.Calls.{Env, DiskCache, MountPoint, MountContext, vfs_stats, sleep}
use csi_driver_rclone.Node.Monad.{M, ◌>>=◌, ◌>>◌, pure, observe, tell}

abbrev pub max_retries : ℕ
max_retries = 5

-- Two minutes, in nanoseconds.
abbrev pub sync_timeout : ℕ
sync_timeout = 2 * 60 * 10 ^ 9

-- The sleep before the next try, in seconds: two more each time, ten at most.
unfoldable pub back_off : ℕ → ℕ
back_off retry_count = if ltb 10 (retry_count * 2) then 10 else retry_count * 2

unfoldable pub all_clear : Option DiskCache → Bool
all_clear none = false
all_clear (some cache) =
    not (is_positive cache.uploads_in_progress || is_positive cache.uploads_queued)

unfoldable pub clock : {E : Type 0} → Env → M E ℕ
clock env s = (ok (env.now s.trace), s)

-- The loop, with `retryCount` as its state and result. The first number is fuel.
unfoldable pub sync_loop : {E : Type 0} → Env → ℕ → ℕ → ℕ → ℕ → M E ℕ
unfolding observe tell all_clear clock back_off
sync_loop env id timeout zero retry_count = pure retry_count
sync_loop env id timeout (suc fuel) retry_count = do
  t ← clock env
  if ltb t timeout && ltb retry_count max_retries
      then (do
        stats ← observe (vfs_stats id) (λ tr. env.on_vfs_stats tr id)
        if all_clear stats then pure retry_count else (do
          tell (sleep (back_off (retry_count + 1)))
          sync_loop env id timeout fuel (retry_count + 1)))
      else pure retry_count

-- Fuel for `max_retries` rounds and the last test.
abbrev pub sync_fuel : ℕ
sync_fuel = 6

abbrev synced : {E : Type 0} → Env → ℕ → Option DiskCache → M E Unit
unfolding sync_loop
synced env id none = pure tt
synced env id (some cache) = do
  t ← clock env
  sync_loop env id (t + sync_timeout) sync_fuel 0
  pure tt

unfoldable pub wait_for_vfs_cache_sync : {E : Type 0} → Env → MountPoint → M E Unit
unfolding sync_loop observe
wait_for_vfs_cache_sync env mount_point = do
  stats ← observe (vfs_stats mount_point.id) (λ tr. env.on_vfs_stats tr mount_point.id)
  synced env mount_point.id stats
