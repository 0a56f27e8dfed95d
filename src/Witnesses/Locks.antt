-- ===== src/Witnesses/Locks.antt =====
-- Two states of a small system of workers.
use csi_driver_rclone.Prelude.{ℕ, ◌≡◌, ◌↔◌, refl, arith, false, ◌==◌, if◌then◌else◌}
use csi_driver_rclone.Text.{codes}
use csi_driver_rclone.Locks.{has, try_acquire}
use csi_driver_rclone.Locks.Workers.{
  Reach, start, next, accept, init, System, idle, working, mutual_exclusion, try_acquire-working,
}
use csi_driver_rclone.Locks.Key.{lock_key-injective}

abbrev one_working : System
one_working = record {
  vl = (try_acquire init.vl (codes "k")).1;
  pc = λ j. if 3 == j then working (codes "k") else idle;
}

one_working-Reach : Reach one_working
unfolding try_acquire has
one_working-Reach = next start (accept 3 (codes "k") refl refl)

abbrev third : ℕ
third = 3

mutual_exclusion_example : third ≡ third
mutual_exclusion_example = mutual_exclusion one_working-Reach 3 3 (codes "k") refl refl

try_acquire-working_example :
    ((try_acquire one_working.vl (codes "k")).0 ≡ false)
    ↔ ((i : ℕ) × (one_working.pc i ≡ working (codes "k")))
try_acquire-working_example = try_acquire-working one_working-Reach (codes "k")

lock_key-injective_example : (codes "v" ≡ codes "v") × (codes "t" ≡ codes "t")
lock_key-injective_example =
    lock_key-injective (codes "v") (codes "t") (codes "v") (codes "t") (omega arith) (omega arith)
      refl
