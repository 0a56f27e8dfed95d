-- ===== src/Node/Target.antt =====
-- `prepareTargetDirectory`.
pub mod Laws
use csi_driver_rclone.Prelude.{
  Bool, true, false, not, Option, none, some, Result, ok, err, [], if◌then◌else◌,
}
use csi_driver_rclone.Text.{Text, codes}
use csi_driver_rclone.Status.{Status, error, internal}
use csi_driver_rclone.Node.Calls.{
  Call, Env, PathError, is_likely_not_mount_point, mkdir_all, chmod, read_dir, unmount,
}
use csi_driver_rclone.Node.Monad.{M, ◌>>=◌, ◌>>◌, pure, raise, perform, observe, wrapped, ignored}

-- The first test. `none` is the early return for a target that is mounted, `some` the value of
-- `notMnt` behind the test.
unfoldable pub ensure_directory : Env → Text → Result PathError Bool → M Status (Option Bool)
unfolding perform
ensure_directory env path (ok true) = pure (some true)
ensure_directory env path (ok false) = pure none
ensure_directory env path (err e) =
    if e.not_exist
    then (do
      wrapped internal [] (perform (mkdir_all path) (λ t. env.on_mkdir_all t path))
      pure (some true))
    else raise (error internal e.text)

-- The last part: a mount that exists is kept if its directory can be read, else it is unmounted.
unfoldable pub check_mount : Env → Text → Result Text (Unit {0}) → M Status Unit
unfolding perform
check_mount env path (ok _) = pure tt
check_mount env path (err e) =
    wrapped internal (codes "corrupted mount could not be cleaned up: ")
      (perform (unmount path) (λ t. env.on_unmount t path))

unfoldable pub finish_target : Env → Text → Option Bool → M Status Unit
unfolding check_mount observe perform
finish_target env path none = pure tt
finish_target env path (some not_mnt) = do
  ignored (perform (chmod path) (λ t. env.on_chmod t path))
  if not not_mnt
      then (do
        readable ← observe (read_dir path) (λ t. env.on_read_dir t path)
        check_mount env path readable)
      else pure tt

unfoldable pub prepare_target_directory : Env → Text → M Status Unit
unfolding ensure_directory observe finish_target
prepare_target_directory env path = do
  likely ← observe (is_likely_not_mount_point path) (λ t. env.on_is_likely_not_mount_point t path)
  not_mnt ← ensure_directory env path likely
  finish_target env path not_mnt
