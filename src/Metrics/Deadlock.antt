-- ===== src/Metrics/Deadlock.antt =====
-- A scrape and an update of the mount contexts, by what they do to the lock `mu` of the node server.
use csi_driver_rclone.Prelude.{
  ◌≡◌, refl, Bool, true, false, Option, none, some, List, [], ◌∷◌, ◌++◌, if◌then◌else◌, ◌⊎◌, inl,
  inr, ap, Bool-cases,
}
use csi_driver_rclone.Text.{Text}
use csi_driver_rclone.GoMap.{GoMap}
use csi_driver_rclone.Node.Calls.{MountContext, MountPoint}
use csi_driver_rclone.RwMutex.{
  Op, rlock, runlock, lock, acquire, unlock, Pair, step_first, step_second, Reach, here, next,
  start_pair, IsDeadlock, IsNested-IsDeadlock, act,
}

abbrev pub get_mount_context_ops : List Op
get_mount_context_ops = rlock ∷ runlock ∷ []

-- `setMountContext` and `deleteMountContext`
abbrev pub update_ops : List Op
update_ops = lock ∷ acquire ∷ unlock ∷ []

-- `isMountHealthy` looks for the context once the directory has been read.
unfoldable pub is_mount_healthy_ops : Bool → List Op
is_mount_healthy_ops readable = if readable then get_mount_context_ops else []

abbrev check_ops : (Text → Bool) → Text → Option MountPoint → List Op
unfolding is_mount_healthy_ops
check_ops readable target_path none = []
check_ops readable target_path (some p) = is_mount_healthy_ops (readable target_path)

unfoldable pub collect_mount_health_metrics_ops : (Text → Bool) → GoMap MountContext → List Op
unfolding check_ops
collect_mount_health_metrics_ops readable [] = []
collect_mount_health_metrics_ops readable ((target_path, mc) ∷ contexts) =
    check_ops readable target_path mc.mount_point
    ++ collect_mount_health_metrics_ops readable contexts

-- The read lock is held throughout; the aggregation makes no call on it.
unfoldable pub collect_vfs_metrics_ops : (Text → Bool) → GoMap MountContext → List Op
unfolding collect_mount_health_metrics_ops
collect_vfs_metrics_ops readable contexts =
    rlock ∷ (collect_mount_health_metrics_ops readable contexts ++ runlock ∷ [])

-- Some target with a mount point has a directory that can be read.
abbrev pub Checked : (Text → Bool) → GoMap MountContext → Type 0
Checked readable [] = ⊥
Checked readable ((target_path, mc) ∷ contexts) =
    ((p : MountPoint) × (mc.mount_point ≡ some p) × (readable target_path ≡ true))
    ⊎ Checked readable contexts

check_ops-checked :
    (readable : Text → Bool) (target_path : Text) (o : Option MountPoint) (p : MountPoint)
    → o ≡ some p
    → readable target_path ≡ true
    → check_ops readable target_path o ≡ get_mount_context_ops
unfolding check_ops is_mount_healthy_ops
check_ops-checked readable target_path none p e h = absurd (cc)
check_ops-checked readable target_path (some q) p e h = rw h refl

-- Where some target is checked, the first thing that the checks do is to ask for the read lock.
checks-rlock :
    (readable : Text → Bool) (contexts : GoMap MountContext)
    → Checked readable contexts
    → (rest : List Op) × (collect_mount_health_metrics_ops readable contexts ≡ rlock ∷ rest)
unfolding collect_mount_health_metrics_ops check_ops is_mount_healthy_ops
checks-rlock readable [] h = absurd h
checks-rlock readable ((target_path, mc) ∷ contexts) (inl (p, e, r)) = (
  runlock ∷ collect_mount_health_metrics_ops readable contexts,
  rw (check_ops-checked readable target_path mc.mount_point p e r) refl,
)
checks-rlock readable ((target_path, mc) ∷ contexts) (inr h) =
    go mc.mount_point (checks-rlock readable contexts h)
  where
    go :
        (o : Option MountPoint)
        → ((rest : List Op) × (collect_mount_health_metrics_ops readable contexts ≡ rlock ∷ rest))
        → (rest : List Op) × (check_ops readable target_path o
              ++ collect_mount_health_metrics_ops readable contexts
            ≡ rlock ∷ rest)
    go none q = q
    go (some p) q = elim (Bool-cases (readable target_path)) [
      | inl y ↦ (runlock ∷ collect_mount_health_metrics_ops readable contexts, rw y refl)
      | inr n ↦ rw n q
    ]

-- A scrape that checks some mount, and an update of the mount contexts, can come to a state in which
-- each waits for the other forever: the scrape holds the read lock and asks for it once more, while
-- the update waits for the write lock.
pub scrape-IsDeadlock :
    (readable : Text → Bool) (contexts : GoMap MountContext)
    → Checked readable contexts
    → (s : Pair) × Reach (start_pair (collect_vfs_metrics_ops readable contexts) update_ops) s
      × IsDeadlock s
unfolding collect_vfs_metrics_ops act
scrape-IsDeadlock readable contexts h =
    let (rest, e) = checks-rlock readable contexts h in
    let left = collect_mount_health_metrics_ops readable contexts ++ runlock ∷ [] in
    (
      record {
        mutex = record { readers = 1; waiting = 1; writing = false };
        first = left;
        second = acquire ∷ unlock ∷ [];
      },
      next (next here (step_first rlock left _ refl refl)) (step_second lock _ _ refl refl),
      IsNested-IsDeadlock (record {
        asks = (rest ++ runlock ∷ [], ap (λ l. l ++ runlock ∷ []) e);
        waits = (unlock ∷ [], refl);
        held = (0, refl);
        pending = (0, refl);
      }),
    )
