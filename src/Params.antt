-- ===== src/Params.antt =====
-- The constants of pkg/nfsexport/nfsexport.go that name parameters of a storage class and
-- attributes of a volume, and the case that the source's `switch strings.ToLower(k)` takes.
use csi_driver_nfs_export.Base.{String, ◌==◌, if◌then◌else◌}
use csi_driver_nfs_export.Base.Strings.{to_lower}

abbrev pub param_data_volume_claim : String
param_data_volume_claim = "datavolumeclaim"

abbrev pub param_data_storage_class : String
param_data_storage_class = "datastorageclass"

abbrev pub param_data_namespace : String
param_data_namespace = "datanamespace"

abbrev pub param_nfs_server_image : String
param_nfs_server_image = "nfsserverimage"

abbrev pub param_nfs_hosts_allow : String
param_nfs_hosts_allow = "nfshostsallow"

abbrev pub mount_options_field : String
mount_options_field = "mountoptions"

abbrev pub mount_permissions_field : String
mount_permissions_field = "mountpermissions"

abbrev pub pvc_name_key : String
pvc_name_key = "csi.storage.k8s.io/pvc/name"

abbrev pub pvc_namespace_key : String
pvc_namespace_key = "csi.storage.k8s.io/pvc/namespace"

abbrev pub pv_name_key : String
pv_name_key = "csi.storage.k8s.io/pv/name"

abbrev pub pod_name_key : String
pod_name_key = "csi.storage.k8s.io/pod.name"

abbrev pub pod_namespace_key : String
pod_namespace_key = "csi.storage.k8s.io/pod.namespace"

-- "nfs-export.csi.k8s.io/id", the label of everything that belongs to one volume.
abbrev pub id_label : String
id_label = "nfs-export.csi.k8s.io/id"

abbrev pub default_image : String
default_image = "daocloud.io/piraeus/nfs-ganesha:latest"

-- The constant that a key is, up to the case of its letters.
pub data Key : Type 0 where
  data_volume_claim data_storage_class data_namespace nfs_server_image nfs_hosts_allow : Key
  mount_options mount_permissions pvc_name pvc_namespace pv_name pod_name pod_namespace : Key
  unknown : Key

-- The constants differ, so the order of the tests does not matter.
key_of_lower : String → Key
key_of_lower k =
    if k == param_data_volume_claim
    then data_volume_claim
    else if k == param_data_storage_class
    then data_storage_class
    else if k == param_data_namespace
    then data_namespace
    else if k == param_nfs_server_image
    then nfs_server_image
    else if k == param_nfs_hosts_allow
    then nfs_hosts_allow
    else if k == mount_options_field
    then mount_options
    else if k == mount_permissions_field
    then mount_permissions
    else if k == pvc_name_key
    then pvc_name
    else if k == pvc_namespace_key
    then pvc_namespace
    else if k == pv_name_key
    then pv_name
    else if k == pod_name_key
    then pod_name
    else if k == pod_namespace_key
    then pod_namespace
    else unknown

unfoldable pub key_of : String → Key
unfolding key_of_lower to_lower
key_of k = key_of_lower (to_lower k)
