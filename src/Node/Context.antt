-- ===== src/Node/Context.antt =====
-- The volume context that `CreateVolume` writes, as `NodePublishVolume` and `NodeUnpublishVolume`
-- read it.
use csi_driver_nfs_export.Base.{
  String, ℕ, Bool, List, [], ◌∷◌, ◌++◌, All, some, ◌==◌, ◌≡◌, refl, if◌then◌else◌,
}
use csi_driver_nfs_export.Base.Entries.{Entries}
use csi_driver_nfs_export.Api.Calls.{History}
use csi_driver_nfs_export.Api.Exec.{ok, result}
use csi_driver_nfs_export.Api.Client.{Env}
use csi_driver_nfs_export.Params.{Key, pod_name, pod_namespace, unknown, default_image, key_of}
use csi_driver_nfs_export.Controller.Parameters.{Parameters, no_parameters, read_parameters}
use csi_driver_nfs_export.Controller.Volume.{
  CreateRequest, Volume, create_volume, volume_context_of,
}
use csi_driver_nfs_export.Controller.Created.{create_volume_created}
use csi_driver_nfs_export.Node.Attributes.{
  Attributes, start_attributes, set_attribute, read_attributes, set_backend, read_backend,
}

pub context_read :
    (claim ns image hosts : String) (a : Attributes)
    → read_attributes (volume_context_of claim ns image hosts) a
      ≡ ok (record a { claim = claim; namespace = ns; image = image; hosts_allow = hosts })
unfolding read_attributes volume_context_of set_attribute key_of
context_read claim ns image hosts a = refl

-- A key that the kubelet adds for the pod, or one that the driver does not know.
abbrev IsPodKey : Key → Type 0
IsPodKey pod_name = Unit
IsPodKey pod_namespace = Unit
IsPodKey unknown = Unit
IsPodKey _ = ⊥

abbrev pub IsPodInfo : String × String → Type 0
IsPodInfo (k, v) = IsPodKey (key_of k)

-- The attributes with another pod.
abbrev pub for_pod : String → String → Attributes → Attributes
for_pod name ns a = record a { app_pod = name; app_namespace = ns }

pod_info_step :
    (key : Key) (v : String) (a : Attributes)
    → IsPodKey key
    → (name : String) × (ns : String) × (set_attribute key v a ≡ some (for_pod name ns a))
unfolding set_attribute
pod_info_step pod_name v a _ = (v, a.app_namespace, refl)
pod_info_step pod_namespace v a _ = (a.app_pod, v, refl)
pod_info_step unknown v a _ = (a.app_pod, a.app_namespace, refl)
pod_info_step _ v a other = absurd other

-- Entries on the pod in front of a context set nothing but the pod.
pub pod_info_read :
    (info m : Entries) (a : Attributes)
    → All IsPodInfo info
    → (name : String) × (ns : String) × (read_attributes (info ++ m) a
        ≡ read_attributes m (for_pod name ns a))
unfolding read_attributes
pod_info_read [] m a all = (a.app_pod, a.app_namespace, refl)
pod_info_read ((k, v) ∷ info) m a (first, rest) =
    let (name, ns, set) = pod_info_step (key_of k) v a first in
    let (name', ns', read) = pod_info_read info m (for_pod name ns a) rest in
    (name', ns', rw (set, read_attributes) read)

context_released :
    (claim ns image hosts : String)
    → read_backend (volume_context_of claim ns image hosts) (record { claim = ""; namespace = "" })
      ≡ record { claim = claim; namespace = ns }
unfolding read_backend volume_context_of set_backend key_of
context_released claim ns image hosts = refl

-- The context of a volume that `CreateVolume` answered with is read back by `NodePublishVolume` as
-- the claim with the volume's identifier, in the namespace of the parameters, with the server's
-- image, or the default one where that is empty, and the hosts of the parameters; and by `NodeUnpublishVolume` as that claim.
pub created_context_read :
    (e : Env) (req : CreateRequest) (h : History) (flags : List String) (readonly : Bool)
    (permissions : ℕ) {vol : Volume}
    → result (create_volume e req h) ≡ ok vol
    → (p : Parameters) × (read_parameters req.parameters no_parameters ≡ ok p)
      × (read_attributes vol.volume_context (start_attributes flags readonly permissions)
          ≡ ok (record (start_attributes flags readonly permissions) {
            claim = vol.volume_id;
            namespace = p.claim_namespace;
            image = if p.server_image == "" then default_image else p.server_image;
            hosts_allow = p.hosts_allow;
          }))
      × (read_backend vol.volume_context (record { claim = ""; namespace = "" })
          ≡ record { claim = vol.volume_id; namespace = p.claim_namespace })
created_context_read e req h flags readonly permissions q =
    let (p, read, same, _) = create_volume_created e req h q in
    (p, read, rw (same, context_read), rw (same, context_released))
