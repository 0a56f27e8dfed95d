-- ===== src/Locks.antt =====
-- `VolumeLocks` (pkg/rclone/utils.go): the set of keys on which an operation is at work.
pub mod Laws
pub mod Workers
pub mod Key
pub mod Abstract
use csi_driver_rclone.Prelude.{Bool, true, false, List, [], ◌∷◌, ◌++◌, ◌||◌, if◌then◌else◌}
use csi_driver_rclone.Text.{Text, codes, text_eq}

-- `sets.Set[string]`, of which the driver uses `Has`, `Insert` and `Delete`.
unfoldable pub has : List Text → Text → Bool
unfolding text_eq
has [] k = false
has (j ∷ l) k = text_eq j k || has l k

unfoldable pub delete : List Text → Text → List Text
unfolding text_eq
delete [] k = []
delete (j ∷ l) k = let rest = delete l k in if text_eq j k then rest else j ∷ rest

pub record VolumeLocks : Type 0 where
  pub locks : List Text

abbrev pub new_volume_locks : VolumeLocks
new_volume_locks = record { locks = [] }

-- The method holds the mutex throughout, so it is one step.
unfoldable pub try_acquire : VolumeLocks → Text → Bool × VolumeLocks
unfolding has
try_acquire vl volume_id =
    if has vl.locks volume_id then (false, vl) else (true, record { locks = volume_id ∷ vl.locks })

unfoldable pub release : VolumeLocks → Text → VolumeLocks
unfolding delete
release vl volume_id = record { locks = delete vl.locks volume_id }

-- `fmt.Sprintf("%s-%s", volumeID, targetPath)`
unfoldable pub lock_key : Text → Text → Text
lock_key volume_id target_path = volume_id ++ (codes "-" ++ target_path)
