-- ===== src/FakeMounter.antt =====
-- The mounter of the tests (pkg/rclone/fake_mounter.go): which paths it refuses.
use csi_driver_rclone.Prelude.{Bool, true, false, Result, ok, err, if◌then◌else◌}
use csi_driver_rclone.Text.{Text, codes, contains}

unfoldable mount : Text → Text → Result Text (Unit {0})
mount source target =
    if contains source (codes "error_mount")
    then err (codes "fake Mount: source error")
    else if contains target (codes "error_mount")
    then err (codes "fake Mount: target error")
    else ok tt

unfoldable mount_sensitive : Text → Text → Result Text (Unit {0})
mount_sensitive source target =
    if contains source (codes "error_mount_sens")
    then err (codes "fake MountSensitive: source error")
    else if contains target (codes "error_mount_sens")
    then err (codes "fake MountSensitive: target error")
    else ok tt

unfoldable is_likely_not_mount_point : Text → Result Text Bool
is_likely_not_mount_point file =
    if contains file (codes "error_is_likely")
    then err (codes "fake IsLikelyNotMountPoint: fake error")
    else if contains file (codes "false_is_likely")
    then ok false
    else ok true
