-- ===== src/Controller/Parameters.antt =====
-- The loop of `CreateVolume` over the storage class's parameters.
use csi_driver_nfs_export.Base.{String, ◌∷◌, [], Option, none, some}
use csi_driver_nfs_export.Base.Entries.{Entries}
use csi_driver_nfs_export.Api.Exec.{Outcome, ok, err, invalid_argument, invalid_parameter}
use csi_driver_nfs_export.Params.{
  Key, data_storage_class, nfs_server_image, nfs_hosts_allow, mount_permissions, pvc_name,
  pvc_namespace, pv_name, key_of,
}

-- The variables that the loop sets.
pub record Parameters : Type 0 where
  pub data_sc : String
  pub server_image : String
  pub hosts_allow : String
  pub claim_name : String
  pub claim_namespace : String

abbrev pub no_parameters : Parameters
no_parameters = record {
  data_sc = "";
  server_image = "";
  hosts_allow = "";
  claim_name = "";
  claim_namespace = "";
}

-- One round; none is the default case, which refuses the request.
unfoldable pub set_parameter : Key → String → Parameters → Option Parameters
set_parameter data_storage_class v p = some (record p { data_sc = v })
set_parameter nfs_server_image v p = some (record p { server_image = v })
set_parameter nfs_hosts_allow v p = some (record p { hosts_allow = v })
set_parameter pvc_name v p = some (record p { claim_name = v })
set_parameter pvc_namespace v p = some (record p { claim_namespace = v })
set_parameter pv_name v p = some p
set_parameter mount_permissions v p = some p
set_parameter _ v p = none

unfoldable pub read_parameters : Entries → Parameters → Outcome Parameters
read_parameters [] p = ok p
read_parameters ((k, v) ∷ m) p = elim (set_parameter (key_of k) v p) [
  | none ↦ err invalid_argument (invalid_parameter k)
  | some p' ↦ read_parameters m p'
]
