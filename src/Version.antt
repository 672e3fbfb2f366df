-- ===== src/Version.antt =====
-- pkg/nfsexport/version.go, and the choice of the client's configuration in
-- cmd/nfsexportplugin/main.go.
use csi_driver_nfs_export.Base.{String, ◌<>◌}
use csi_driver_nfs_export.Base.Strings.{trim_space}
use csi_driver_nfs_export.Api.Objects.{Failure}

-- The variables that the build sets, and the `runtime` package's constants.
pub record Build : Type 0 where
  pub driver_version : String
  pub git_commit : String
  pub build_date : String
  pub go_version : String
  pub compiler : String
  pub os_name : String
  pub arch : String

pub record VersionInfo : Type 0 where
  pub driver_name : String
  pub driver_version : String
  pub git_commit : String
  pub build_date : String
  pub go_version : String
  pub compiler : String
  pub platform : String

unfoldable pub get_version : Build → String → VersionInfo
get_version b name = record {
  driver_name = name;
  driver_version = b.driver_version;
  git_commit = b.git_commit;
  build_date = b.build_date;
  go_version = b.go_version;
  compiler = b.compiler;
  platform = b.os_name <> "/" <> b.arch;
}

-- A text or an error, of code outside the repository.
pub data Text : Type 0 where
  text : String → Text
  failure : Failure → Text

-- `GetVersionYAML`; `marshal` is yaml.Marshal.
unfoldable pub get_version_yaml : (VersionInfo → Text) → Build → String → Text
unfolding get_version trim_space
get_version_yaml marshal b name = elim (marshal (get_version b name)) [
  | text s ↦ text (trim_space s)
  | failure f ↦ failure f
]
