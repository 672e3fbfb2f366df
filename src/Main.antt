-- ===== src/Main.antt =====
-- cmd/nfsexportplugin/main.go: the driver's options from the command line, and the choice of the
-- Kubernetes client.
pub mod Run
pub mod Socket
pub mod Serving
mod Tests
use csi_driver_nfs_export.Base.{String, ℕ, ◌==◌, if◌then◌else◌}
use csi_driver_nfs_export.Api.Objects.{Failure}
use csi_driver_nfs_export.Driver.{DriverOptions}

-- The values of the flags.
pub record Flags : Type 0 where
  pub endpoint : String
  pub node_id : String
  pub mount_permissions : ℕ
  pub driver_name : String
  pub working_mount_dir : String

abbrev pub default_flags : Flags
default_flags = record {
  endpoint = "unix://tmp/csi.sock";
  node_id = "";
  mount_permissions = 0;
  driver_name = "nfs-export.csi.k8s.io";
  working_mount_dir = "/tmp";
}

-- `handle`
unfoldable pub options_of : Flags → DriverOptions
options_of f = record {
  node_id = f.node_id;
  driver_name = f.driver_name;
  endpoint = f.endpoint;
  mount_permissions = f.mount_permissions;
  working_mount_dir = f.working_mount_dir;
}

-- The client, or the klog.Fatalf that ends the process.
pub data Connected (Clientset : Type 0) : Type 0 where
  connected : Clientset → Connected Clientset
  no_kubeconfig : Failure → Connected Clientset
  no_cluster_config : Failure → Connected Clientset
  no_client : Failure → Connected Clientset

-- A value or an error of client-go.
pub data Try (A : Type 0) : Type 0 where
  value : A → Try A
  failure : Failure → Try A

-- The functions of client-go that make the client.
module _ {Config Clientset : Type 0} (from_flags : String → Try Config) (in_cluster : Try Config)
    (new_for_config : Config → Try Clientset) where
  unfoldable pub connect : Config → Connected Clientset
  connect config = elim (new_for_config config) [ value c ↦ connected c | failure f ↦ no_client f ]

  -- `getKubeClient`, on the variable KUBECONFIG
  unfoldable pub get_kube_client : String → Connected Clientset
  unfolding connect
  get_kube_client kubeconfig =
      if kubeconfig == ""
      then elim in_cluster [ value c ↦ connect c | failure f ↦ no_cluster_config f ]
      else elim (from_flags kubeconfig) [ value c ↦ connect c | failure f ↦ no_kubeconfig f ]
