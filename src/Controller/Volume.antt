-- ===== src/Controller/Volume.antt =====
-- The operations of the controller service.
use csi_driver_nfs_export.Base.{
  String, ℤ, pos, Bool, true, false, List, [], ◌∷◌, Option, none, some, ◌==◌, if◌then◌else◌, not,
}
use csi_driver_nfs_export.Base.Strings.{replace_first}
use csi_driver_nfs_export.Base.Entries.{Entries, lookup, index}
use csi_driver_nfs_export.Api.Objects.{Pvc, read_write_once, Pv, StorageClass}
use csi_driver_nfs_export.Api.Exec.{
  on_option, Exec, pure, lift, nil_pointer, ◌>>=◌, ◌>>◌, raise_if, raise_failure, invalid_argument,
  canceled, name_missing, capabilities_missing, id_missing, id_empty,
}
use csi_driver_nfs_export.Api.Client.{
  Env, list_storage_classes, get_pvc, create_pvc, delete_pvc, list_pvs,
}
use csi_driver_nfs_export.Params.{
  param_data_volume_claim, param_data_namespace, param_nfs_server_image, param_nfs_hosts_allow,
  id_label, default_image,
}
use csi_driver_nfs_export.Controller.Parameters.{Parameters, no_parameters, read_parameters}

-- csi.VolumeCapability: the flags of its mount, none where it has no mount.
pub record Capability : Type 0 where
  pub mount_flags : List String

-- csi.CreateVolumeRequest, as its getters read it.
pub record CreateRequest : Type 0 where
  pub name : String
  pub capabilities : List Capability
  pub parameters : Entries
  pub required_bytes : ℤ

-- csi.Volume
pub record Volume : Type 0 where
  pub volume_id : String
  pub capacity_bytes : ℤ
  pub volume_context : Entries

-- `isValidVolumeCapabilities`
unfoldable pub are_valid_capabilities : List Capability → Bool
are_valid_capabilities [] = false
are_valid_capabilities (c ∷ cs) = true

unfoldable pub volume_id_of : String → String
unfolding replace_first
volume_id_of name = replace_first name "pvc-" "nfs-"

unfoldable pub is_default_class : StorageClass → Bool
unfolding lookup
is_default_class sc = elim (lookup "storageclass.kubernetes.io/is-default-class" sc.annotations) [
  | none ↦ false
  | some v ↦ v == "true"
]

-- The loop over the storage classes, the empty text where none is marked.
unfoldable pub find_default_class : List StorageClass → String
unfolding is_default_class
find_default_class [] = ""
find_default_class (sc ∷ scs) = if is_default_class sc then sc.name else find_default_class scs

unfoldable pub data_pvc_def : String → String → ℤ → Pvc
data_pvc_def volume_id data_sc size = record {
  name = volume_id;
  uid = "";
  labels = (id_label, volume_id) ∷ [];
  storage_class_name = data_sc;
  access_modes = read_write_once ∷ [];
  storage = size;
}

unfoldable pub volume_context_of : String → String → String → String → Entries
volume_context_of claim ns image hosts =
    (param_data_volume_claim, claim)
    ∷ (param_data_namespace, ns)
    ∷ (param_nfs_server_image, image)
    ∷ (param_nfs_hosts_allow, hosts)
    ∷ []

-- `getPvById`: the first volume with the handle. Its callers do not read the error.
unfoldable pub find_pv : String → List Pv → Option Pv
find_pv id [] = none
find_pv id (pv ∷ pvs) = elim pv.csi [
  | none ↦ find_pv id pvs
  | some csi ↦ if csi.volume_handle == id then some pv else find_pv id pvs
]

module _ (e : Env) where
  unfoldable pub get_pv_by_id : String → Exec (Option Pv)
  unfolding find_pv
  get_pv_by_id id = do
    list ← list_pvs e
    pure (elim list.error [ none ↦ find_pv id list.value | some _ ↦ none ])

  unfoldable pub choose_class : String → Exec String
  unfolding find_default_class
  choose_class data_sc =
      if data_sc == ""
      then (do
        list ← list_storage_classes e
        pure (elim list.error [ none ↦ find_default_class list.value | some _ ↦ "" ]))
      else pure data_sc

  -- An existing claim of the name is taken as it is.
  unfoldable pub ensure_data_pvc : String → Pvc → Exec Pvc
  ensure_data_pvc ns def = do
    found ← get_pvc e ns def.name
    on_option found.error (pure found.value)
        (λ _. do made ← create_pvc e ns def; raise_failure canceled made.error; pure made.value)

  -- The part of `CreateVolume` behind its checks.
  unfoldable pub provision : String → ℤ → Parameters → Exec Volume
  provision name size p = do
    let id = volume_id_of name
    data_sc ← choose_class p.data_sc
    let image = if p.server_image == "" then default_image else p.server_image
    ensure_data_pvc p.claim_namespace (data_pvc_def id data_sc size)
    pure (record {
      volume_id = id;
      capacity_bytes = pos 0;
      volume_context = volume_context_of id p.claim_namespace image p.hosts_allow;
    })

  unfoldable pub create_volume : CreateRequest → Exec Volume
  unfolding are_valid_capabilities
  create_volume req = do
    raise_if (req.name == "") invalid_argument name_missing
    raise_if (not (are_valid_capabilities req.capabilities)) invalid_argument capabilities_missing
    p ← lift (read_parameters req.parameters no_parameters)
    provision req.name req.required_bytes p

  unfoldable pub delete_volume : String → Exec (Unit {0})
  unfolding get_pv_by_id index
  delete_volume id = do
    raise_if (id == "") invalid_argument id_empty
    found ← get_pv_by_id id
    on_option found (pure tt) (λ pv. on_option pv.csi nil_pointer (λ csi. do
      delete_pvc e (index "nfsNamespace" csi.volume_attributes)
          (index "nfsVolumeClaim" csi.volume_attributes)
      pure tt))

-- The capabilities of a valid request are confirmed as they are.
unfoldable pub validate_volume_capabilities : String → List Capability → Exec (List Capability)
unfolding are_valid_capabilities
validate_volume_capabilities id capabilities = do
  raise_if (id == "") invalid_argument id_missing
  raise_if (not (are_valid_capabilities capabilities)) invalid_argument capabilities_missing
  pure capabilities
