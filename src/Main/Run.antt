-- ===== src/Main/Run.antt =====
-- `main` and `handle` of cmd/nfsexportplugin/main.go and `Run` of pkg/nfsexport/nfsexport.go: from the values of
-- the flags to the server's goroutine.
use csi_driver_nfs_export.Base.{String, Bool, true, false, List, [], ◌∷◌, ◌==◌, if◌then◌else◌}
use csi_driver_nfs_export.Api.Objects.{Failure}
use csi_driver_nfs_export.Driver.{Driver, new_driver}
use csi_driver_nfs_export.Main.{
  Flags, options_of, connected, no_kubeconfig, no_cluster_config, no_client, Try, get_kube_client,
}
use csi_driver_nfs_export.Server.{Host, Event, Ending, serve}
use csi_driver_nfs_export.Version.{Build, VersionInfo, Text, text, failure, get_version_yaml}

-- What becomes of the process: klog.Fatalf before a server starts, or the driver whose server runs,
-- with what the server does and how it ends.
pub data Process : Type 0 where
  no_clientset : Failure → Process
  no_version : Failure → Process
  running : Driver → List Event → Ending → Process

-- The warnings of `main`, on the flag for the node's identifier
abbrev pub warnings_of : String → List String
warnings_of node_id = if node_id == "" then "nodeid is empty" ∷ [] else []

module _ (marshal : VersionInfo → Text) (build : Build) (host : Host) where
  -- `Run`; the three services it makes are not nil.
  unfoldable pub run : Driver → Bool → Process
  unfolding get_version_yaml serve
  run n test_mode = elim (get_version_yaml marshal build n.name) [
    | failure f ↦ no_version f
    | text version ↦
        let (events, ending) =
          serve host n.endpoint (record { identity = true; controller = true; node = true })
            test_mode in
        running n events ending
  ]

  module _ {Config Clientset : Type 0} (from_flags : String → Try Config) (in_cluster : Try Config)
      (new_for_config : Config → Try Clientset) where
    -- `handle`, on the variable KUBECONFIG
    unfoldable pub handle : String → Flags → Process
    unfolding get_kube_client options_of new_driver run
    handle kubeconfig flags =
        elim (get_kube_client from_flags in_cluster new_for_config kubeconfig) [
          | connected clientset ↦ run (new_driver build.driver_version (options_of flags)) false
          | no_kubeconfig f ↦ no_clientset f
          | no_cluster_config f ↦ no_clientset f
          | no_client f ↦ no_clientset f
        ]

    -- `main`, with the warnings that it logs. Behind `handle` it ends the process with status 0, but
    -- `handle` comes back only if the caller's `Wait` returns.
    unfoldable pub main : String → Flags → List String × Process
    unfolding handle
    main kubeconfig flags = (warnings_of flags.node_id, handle kubeconfig flags)
