-- ===== src/Node/Stats/Normal.antt =====
-- Which volumes `NodeGetVolumeStats` calls normal.
use csi_driver_rclone.Prelude.{ℤ, ◌≡◌, true, false, Option, some, Result, ok, is_positive}
use csi_driver_rclone.Text.{Text}
use csi_driver_rclone.GoMap.{get}
use csi_driver_rclone.Node.Calls.{Node, MountContext, MountPoint}
use csi_driver_rclone.Node.Stats.{Statfs, Health}

-- The VFS of the mount point, if it has one, counts no error.
abbrev pub IsClean : Health → Option MountPoint → Type 0
IsClean h q =
    (p : MountPoint) (n : ℤ)
    → q ≡ some p
    → p.vfs ≡ true
    → h.vfs_errors p.id ≡ some n
    → is_positive n ≡ false

-- The file system can be asked, the directory can be read, and the VFS that a mount point of the path's
-- context has counts no error.
abbrev pub IsServing : Health → (Text → Result Text Statfs) → Node → Text → Type 0
IsServing h statfs s volume_path =
    ((f : Statfs) × (statfs volume_path ≡ ok f))
    × ((h.read_dir volume_path ≡ ok tt)
        × ((mc : MountContext)
            → get s.mount_context volume_path ≡ some mc
            → IsClean h mc.mount_point))
