-- ===== src/Node/Attributes.antt =====
-- The loop of `NodePublishVolume` over the volume context, and that of `NodeUnpublishVolume`
-- over the volume's attributes.
use csi_driver_nfs_export.Base.{
  String, ℕ, Bool, List, [], ◌∷◌, ◌++◌, Option, none, some, ◌==◌, if◌then◌else◌,
}
use csi_driver_nfs_export.Base.Strings.{parse_octal}
use csi_driver_nfs_export.Base.Entries.{Entries}
use csi_driver_nfs_export.Api.Exec.{Outcome, ok, err, invalid_argument, invalid_permissions}
use csi_driver_nfs_export.Params.{
  Key, data_volume_claim, data_namespace, nfs_server_image, nfs_hosts_allow, mount_options,
  mount_permissions, pod_name, pod_namespace, key_of,
}

-- The variables that the first loop sets.
pub record Attributes : Type 0 where
  pub app_pod : String
  pub app_namespace : String
  pub claim : String
  pub namespace : String
  pub image : String
  pub hosts_allow : String
  pub options : List String
  pub permissions : ℕ

-- Before the loop: the mount flags with "ro" for a read-only volume, and the driver's permissions.
unfoldable pub start_attributes : List String → Bool → ℕ → Attributes
start_attributes flags readonly permissions = record {
  app_pod = "";
  app_namespace = "";
  claim = "";
  namespace = "";
  image = "";
  hosts_allow = "";
  options = if readonly then flags ++ ("ro" ∷ []) else flags;
  permissions = permissions;
}

-- One round; none where the permissions are no octal number of 32 bits.
unfoldable pub set_attribute : Key → String → Attributes → Option Attributes
unfolding parse_octal
set_attribute pod_name v a = some (record a { app_pod = v })
set_attribute pod_namespace v a = some (record a { app_namespace = v })
set_attribute data_volume_claim v a = some (record a { claim = v })
set_attribute data_namespace v a = some (record a { namespace = v })
set_attribute nfs_server_image v a = some (record a { image = v })
set_attribute nfs_hosts_allow v a = some (record a { hosts_allow = v })
set_attribute mount_options v a =
    some (if v == "" then a else record a { options = a.options ++ (v ∷ []) })
set_attribute mount_permissions v a =
    if v == ""
    then some a
    else elim (parse_octal v) [ none ↦ none | some n ↦ some (record a { permissions = n }) ]
set_attribute _ v a = some a

unfoldable pub read_attributes : Entries → Attributes → Outcome Attributes
read_attributes [] a = ok a
read_attributes ((k, v) ∷ m) a = elim (set_attribute (key_of k) v a) [
  | none ↦ err invalid_argument (invalid_permissions v)
  | some a' ↦ read_attributes m a'
]

-- The names of the data claim and of its namespace, as `NodeUnpublishVolume` reads them.
pub record Backend : Type 0 where
  pub claim : String
  pub namespace : String

unfoldable pub set_backend : Key → String → Backend → Backend
set_backend data_volume_claim v b = record b { claim = v }
set_backend data_namespace v b = record b { namespace = v }
set_backend _ v b = b

unfoldable pub read_backend : Entries → Backend → Backend
unfolding set_backend
read_backend [] b = b
read_backend ((k, v) ∷ m) b = read_backend m (set_backend (key_of k) v b)
