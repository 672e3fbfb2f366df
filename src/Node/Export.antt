-- ===== src/Node/Export.antt =====
-- The StatefulSet and the Service that `NodePublishVolume` creates to export a volume.
use csi_driver_nfs_export.Base.{String, List, [], ◌∷◌, some}
use csi_driver_nfs_export.Base.Entries.{Entries}
use csi_driver_nfs_export.Api.Objects.{
  Owner, Port, tcp, udp, Container, PodTemplate, StatefulSet, Service, restart_always, pull_always,
  on_delete, cluster_ip_type,
}
use csi_driver_nfs_export.Params.{id_label}

unfoldable pub id_labels : String → Entries
id_labels id = (id_label, id) ∷ []

-- The data claim owns what is created, so that both are collected with it.
unfoldable pub claim_owner : String → String → Owner
claim_owner claim uid = record {
  api_version = "v1";
  kind = "PersistentVolumeClaim";
  name = claim;
  uid = uid;
}

abbrev nfs_ports : List Port
nfs_ports =
    record { name = "nfs"; protocol = tcp; port = 2049 }
    ∷ record { name = "rpc-tcp"; protocol = tcp; port = 111 }
    ∷ record { name = "rpc-udp"; protocol = udp; port = 111 }
    ∷ []

unfoldable pub export_container : String → String → Container
export_container image hosts_allow = record {
  name = "export";
  image = image;
  pull_policy = pull_always;
  capabilities = "SYS_ADMIN" ∷ "SETPCAP" ∷ "DAC_READ_SEARCH" ∷ [];
  env = ("HOSTS_ALLOW", hosts_allow) ∷ [];
  ports = nfs_ports;
  readiness = record {
    port_name = "nfs";
    initial_delay_seconds = 1;
    period_seconds = 1;
    success_threshold = 3;
  };
  mounts = record { name = "data"; mount_path = "/export" } ∷ [];
}

unfoldable pub pod_template : String → String → String → String → PodTemplate
unfolding id_labels export_container
pod_template id claim image hosts_allow = record {
  labels = id_labels id;
  restart_policy = restart_always;
  grace_seconds = 30;
  containers = export_container image hosts_allow ∷ [];
  volumes = record { name = "data"; claim_name = some claim } ∷ [];
}

unfoldable pub statefulset_def : String → String → String → String → String → StatefulSet
unfolding pod_template claim_owner
statefulset_def id claim uid image hosts_allow = record {
  name = id;
  labels = id_labels id;
  owners = claim_owner claim uid ∷ [];
  replicas = 1;
  update_strategy = on_delete;
  service_name = id;
  selector = id_labels id;
  template = pod_template id claim image hosts_allow;
}

unfoldable pub service_def : String → String → String → Service
unfolding id_labels claim_owner
service_def id claim uid = record {
  name = id;
  labels = id_labels id;
  owners = claim_owner claim uid ∷ [];
  selector = id_labels id;
  service_type = cluster_ip_type;
  ports = nfs_ports;
  cluster_ip = "";
}
