-- ===== src/Node/Unpublish.antt =====
-- `NodeUnpublishVolume`.
use csi_driver_nfs_export.Base.{
  String, ◌<>◌, Bool, true, false, not, ◌&&◌, List, none, some, ◌==◌, if◌then◌else◌, any,
}
use csi_driver_nfs_export.Base.Entries.{Entries}
use csi_driver_nfs_export.Api.Objects.{Pod, PodVolume, Pv}
use csi_driver_nfs_export.Api.Exec.{
  on_option, Exec, pure, raise, nil_pointer, ◌>>=◌, ◌>>◌, raise_if, invalid_argument, internal,
  id_missing, target_missing, unmount_failed,
}
use csi_driver_nfs_export.Api.Client.{
  Env, cleanup_mount_point, list_pods, delete_statefulset, delete_service,
}
use csi_driver_nfs_export.Controller.Volume.{get_pv_by_id}
use csi_driver_nfs_export.Pods.{wait_for_pod_running}
use csi_driver_nfs_export.Node.Attributes.{read_backend}

unfoldable pub is_claim_volume : String → PodVolume → Bool
is_claim_volume claim v = elim v.claim_name [ none ↦ false | some name ↦ name == claim ]

-- The two loops over the pods and their volumes.
unfoldable pub uses_claim : String → List Pod → Bool
unfolding any is_claim_volume
uses_claim claim pods = any (λ pod. any (is_claim_volume claim) pod.volumes) pods

module _ (e : Env) where
  -- Whether some pod still uses the volume's claim. The list's error is not read.
  unfoldable pub is_in_use : String → String → Exec Bool
  unfolding uses_claim
  is_in_use claim ns =
      if not (claim == "") && not (ns == "")
      then (do listed ← list_pods e ns; pure (uses_claim claim listed.value))
      else pure false

  -- Failures to delete are logged only, and the result of the wait is dropped.
  unfoldable pub delete_export : String → Entries → Exec (Unit {0})
  unfolding read_backend wait_for_pod_running
  delete_export id attributes = do
    let ns = (read_backend attributes (record { claim = ""; namespace = "" })).namespace
    delete_statefulset e ns id
    delete_service e ns id
    wait_for_pod_running e ns (id <> "-0") 300
    pure tt

  unfoldable pub release_unused : String → Pv → Exec (Unit {0})
  unfolding is_in_use delete_export
  release_unused id pv = on_option pv.claim_ref nil_pointer (λ ref. do
    used ← is_in_use ref.name ref.namespace
    if used
        then pure tt
        else on_option pv.csi nil_pointer (λ csi. delete_export id csi.volume_attributes))

  unfoldable pub unpublish_volume : String → String → Exec (Unit {0})
  unfolding get_pv_by_id release_unused
  unpublish_volume id target = do
    raise_if (id == "") invalid_argument id_missing
    raise_if (target == "") invalid_argument target_missing
    failure ← cleanup_mount_point e target true
    on_option failure (pure tt) (λ f. raise internal (unmount_failed target f))
    found ← get_pv_by_id e id
    on_option found (pure tt) (release_unused id)
