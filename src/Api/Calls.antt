-- ===== src/Api/Calls.antt =====
-- Every call that leaves the driver: Kubernetes' API server through client-go, the mounter of
-- mount-utils, and the node's operating system.
use csi_driver_nfs_export.Base.{String, ℕ, List, Bool}
use csi_driver_nfs_export.Api.Objects.{Pvc, StatefulSet, Service, Pod}

-- Namespaced calls take the namespace first.
pub data Call : Type 0 where
  get_pvc : String → String → Call
  create_pvc : String → Pvc → Call
  delete_pvc : String → String → Call
  list_pvcs : Call
  list_pvs : Call
  list_storage_classes : Call
  get_statefulset : String → String → Call
  create_statefulset : String → StatefulSet → Call
  delete_statefulset : String → String → Call
  get_service : String → String → Call
  create_service : String → Service → Call
  delete_service : String → String → Call
  get_pod : String → String → Call
  update_pod : String → Pod → Call
  list_pods : String → Call
  probe_tcp : String → ℕ → Call
  is_likely_not_mount_point : String → Call
  is_not_mount_point : String → Call
  mount : String → String → String → List String → Call
  cleanup_mount_point : String → Bool → Call
  mkdir_all : String → ℕ → Call
  read_dir : String → Call
  getenv : String → Call
  lstat : String → Call
  chmod : String → ℕ → Call
  stat_fs : String → Call

-- The calls made so far, the latest first.
abbrev pub History : Type 0
History = List Call
