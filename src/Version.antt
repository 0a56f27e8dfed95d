-- ===== src/Version.antt =====
-- The version of the driver (pkg/rclone/version.go).
use csi_driver_rclone.Prelude.{Result, ok, ◌>>=◌, ◌++◌}
use csi_driver_rclone.Text.{Text, codes, trim_space}

-- What the linker sets, and what the package `runtime` says.
pub record Build : Type 0 where
  pub driver_version : Text
  pub rclone_version : Text
  pub git_commit : Text
  pub build_date : Text
  pub go_version : Text
  pub compiler : Text
  pub goos : Text
  pub goarch : Text

pub record VersionInfo : Type 0 where
  pub driver_name : Text
  pub driver_version : Text
  pub rclone_version : Text
  pub git_commit : Text
  pub build_date : Text
  pub go_version : Text
  pub compiler : Text
  pub platform : Text

unfoldable pub get_version : Build → Text → VersionInfo
get_version b driver_name = record {
  driver_name = driver_name;
  driver_version = b.driver_version;
  rclone_version = b.rclone_version;
  git_commit = b.git_commit;
  build_date = b.build_date;
  go_version = b.go_version;
  compiler = b.compiler;
  platform = b.goos ++ (codes "/" ++ b.goarch);
}

-- `marshal` is `yaml.Marshal`.
unfoldable pub get_version_yaml : (VersionInfo → Result Text Text) → Build → Text → Result Text Text
unfolding get_version
get_version_yaml marshal b driver_name = do
  marshalled ← marshal (get_version b driver_name)
  ok (trim_space marshalled)

unfoldable pub get_version_string : Build → Text → Text
get_version_string b driver_name =
    driver_name
    ++ (codes " version "
        ++ (b.driver_version
            ++ (codes " (rclone: "
                ++ (b.rclone_version
                    ++ (codes ", commit: "
                        ++ (b.git_commit ++ (codes ", built: " ++ (b.build_date ++ codes ")"))))))))
