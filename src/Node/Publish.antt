-- ===== src/Node/Publish.antt =====
-- `NodePublishVolume`, in the order of its steps.
use csi_driver_nfs_export.Base.{String, ◌<>◌, ℕ, Bool, Option, none, some, ◌==◌, if◌then◌else◌}
use csi_driver_nfs_export.Base.Entries.{Entries}
use csi_driver_nfs_export.Api.Objects.{StatefulSet}
use csi_driver_nfs_export.Api.Exec.{
  on_option, Exec, pure, raise, lift, ◌>>=◌, ◌>>◌, raise_if, raise_failure, invalid_argument,
  canceled, capability_missing, id_missing, target_missing, parameter_required,
}
use csi_driver_nfs_export.Api.Client.{Env, get_pvc, get_statefulset, create_statefulset, get_pod}
use csi_driver_nfs_export.Params.{param_data_volume_claim, param_data_namespace, default_image}
use csi_driver_nfs_export.Controller.Volume.{Capability}
use csi_driver_nfs_export.Pods.{wait_for_pod_running}
use csi_driver_nfs_export.Node.Attributes.{Attributes, start_attributes, read_attributes}
use csi_driver_nfs_export.Node.Mount.{prepare_target, mount_volume}
use csi_driver_nfs_export.Node.Export.{statefulset_def, service_def}

-- csi.NodePublishVolumeRequest
pub record PublishRequest : Type 0 where
  pub volume_id : String
  pub target_path : String
  pub capability : Option Capability
  pub readonly : Bool
  pub context : Entries

unfoldable pub require_capability : Option Capability → Exec Capability
require_capability none = raise invalid_argument capability_missing
require_capability (some c) = pure c

module _ (e : Env) where
  unfoldable pub ensure_statefulset : String → StatefulSet → Exec (Unit {0})
  ensure_statefulset ns def = do
    found ← get_statefulset e ns def.name
    on_option found.error (pure tt)
        (λ _. do made ← create_statefulset e ns def; raise_failure canceled made.error)

  -- The pod's identifier is read before the wait, and a failure to read it is ignored.
  unfoldable pub wait_for_export : String → String → Exec String
  unfolding wait_for_pod_running
  wait_for_export id ns = do
    pod ← get_pod e ns (id <> "-0")
    waited ← wait_for_pod_running e ns (id <> "-0") 300
    raise_failure canceled waited
    pure pod.value.uid

  -- From the check that the data claim exists up to the pod that exports it.
  unfoldable pub start_export : String → Attributes → Exec (String × String)
  unfolding statefulset_def ensure_statefulset wait_for_export
  start_export id a = do
    claim ← get_pvc e a.namespace a.claim
    raise_failure invalid_argument claim.error
    ensure_statefulset a.namespace (
        statefulset_def id a.claim claim.value.uid
          (if a.image == "" then default_image else a.image) a.hosts_allow)
    pod_uid ← wait_for_export id a.namespace
    pure (pod_uid, claim.value.uid)

  -- The checks of the request, and its attributes.
  unfoldable pub check_publish : ℕ → PublishRequest → Exec Attributes
  unfolding require_capability start_attributes read_attributes
  check_publish permissions req = do
    cap ← require_capability req.capability
    raise_if (req.volume_id == "") invalid_argument id_missing
    raise_if (req.target_path == "") invalid_argument target_missing
    a ←
        lift
          (read_attributes req.context (start_attributes cap.mount_flags req.readonly permissions))
    raise_if (a.claim == "") invalid_argument (parameter_required param_data_volume_claim)
    raise_if (a.namespace == "") invalid_argument (parameter_required param_data_namespace)
    pure a

  unfoldable pub publish_volume : ℕ → PublishRequest → Exec (Unit {0})
  unfolding check_publish start_export service_def prepare_target mount_volume
  publish_volume permissions req = do
    a ← check_publish permissions req
    uids ← start_export req.volume_id a
    fresh ← prepare_target e req.target_path a.permissions
    if fresh
        then mount_volume e req.target_path a (service_def req.volume_id a.claim uids.1) uids.0
            uids.1
        else pure tt
