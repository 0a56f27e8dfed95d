-- ===== src/Locks/Laws.antt =====
-- Membership after `TryAcquire` and `Release`.
use csi_driver_rclone.Prelude.{◌≡◌, arith, true, false, List, [], ◌∷◌, if◌then◌else◌}
use csi_driver_rclone.Text.{Text, text_eq}
use csi_driver_rclone.Text.Eq.{text_eq_iff}
use csi_driver_rclone.Locks.{VolumeLocks, has, delete, try_acquire, release}

pub has-delete :
    (l : List Text) (k j : Text) → has (delete l k) j ≡ (if text_eq k j then false else has l j)
unfolding has delete
has-delete [] k j = ground arith
has-delete (i ∷ l) k j =
    ground (arith, has-delete l k j, text_eq_iff i k, text_eq_iff i j, text_eq_iff k j)

-- `TryAcquire` answers whether the key was free.
pub try_acquire-free :
    (vl : VolumeLocks) (k : Text) → has vl.locks k ≡ false → (try_acquire vl k).0 ≡ true
unfolding try_acquire
try_acquire-free vl k h = rw h

pub try_acquire-busy :
    (vl : VolumeLocks) (k : Text) → has vl.locks k ≡ true → try_acquire vl k ≡ (false, vl)
unfolding try_acquire
try_acquire-busy vl k h = rw h

-- Acquiring a free key and releasing it leaves every key as it was.
pub release-try_acquire :
    (vl : VolumeLocks) (k j : Text)
    → has vl.locks k ≡ false
    → has (release (try_acquire vl k).1 k).locks j ≡ has vl.locks j
unfolding try_acquire release
release-try_acquire vl k j h = rw h (rw has-delete (unfold has in ground (arith, text_eq_iff k j)))
