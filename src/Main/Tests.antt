-- ===== src/Main/Tests.antt =====
-- A run of the theorem on the process.
use csi_driver_nfs_export.Base.{String, ◌<>◌, [], ◌∷◌, ◌⊎◌, none, ◌≢◌, ◌↔◌, ◌≡◌, refl}
use csi_driver_nfs_export.Base.Strings.{trim_space}
use csi_driver_nfs_export.Driver.{new_driver}
use csi_driver_nfs_export.Main.{default_flags, options_of, Try, value, get_kube_client, connect}
use csi_driver_nfs_export.Main.Run.{running, main}
use csi_driver_nfs_export.Main.Socket.{socket_events}
use csi_driver_nfs_export.Main.Serving.{CanServe, main_serves}
use csi_driver_nfs_export.Server.{Host, served}
use csi_driver_nfs_export.Version.{Build, VersionInfo, Text, text, get_version_yaml}

abbrev build : Build
build = record {
  driver_version = "v1.0.0";
  git_commit = "abc";
  build_date = "2022-12-01";
  go_version = "go1.19";
  compiler = "gc";
  os_name = "linux";
  arch = "amd64";
}

abbrev print_version : VersionInfo → Text
print_version v = text v.driver_version

abbrev host : Host
host = record { removed = λ path. none; listening = λ proto addr. none; serving = none }

abbrev config_of : String → Try Unit
config_of kubeconfig = value tt

abbrev clientset_of : Unit {0} → Try Unit
clientset_of config = value tt

main_serves_example :
    (((main print_version build host config_of (value tt) clientset_of "" default_flags).1
        ≡ running
            (new_driver "v1.0.0" (options_of default_flags))
            (socket_events ("/" <> "tmp/csi.sock"))
            served)
      ↔ CanServe print_version build host config_of
          (value tt)
          clientset_of
          ""
          default_flags
          "tmp/csi.sock")
    × (((default_flags.node_id ≡ "")
          × ((main print_version build host config_of (value tt) clientset_of "" default_flags).0
              ≡ "nodeid is empty" ∷ []))
        ⊎ ((default_flags.node_id ≢ "")
            × ((main print_version build host config_of (value tt) clientset_of "" default_flags).0
                ≡ [])))
main_serves_example =
    main_serves print_version build host config_of (value tt) clientset_of "" default_flags
      "tmp/csi.sock" refl refl

serves :
    (main print_version build host config_of (value tt) clientset_of "" default_flags).1
    ≡ running
        (new_driver "v1.0.0" (options_of default_flags))
        (socket_events ("/" <> "tmp/csi.sock"))
        served
unfolding get_kube_client connect get_version_yaml trim_space
serves = main_serves_example.0.1 ((tt, refl), ("v1.0.0", refl), refl, refl, refl)
