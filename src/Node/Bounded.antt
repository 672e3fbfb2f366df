-- ===== src/Node/Bounded.antt =====
-- How many calls the steps of `NodePublishVolume` make at most.
use csi_driver_nfs_export.Base.{
  String, ◌<>◌, ℕ, ◌+◌, ◌*◌, true, not, List, Option, none, some, refl,
}
use csi_driver_nfs_export.Api.Objects.{Failure, StatefulSet, Service}
use csi_driver_nfs_export.Api.Client.{Env}
use csi_driver_nfs_export.Api.Takes.{
  Takes, Takes-mono, Takes-pure, Takes-raise, Takes-lift, Takes-call, Takes-if, Takes-raise_if,
  Takes-raise_failure, Takes-on_option, Takes-bind, PollsInTime,
}
use csi_driver_nfs_export.Controller.Volume.{Capability}
use csi_driver_nfs_export.Pods.{
  is_pod_running, wait_for_pod_running, is_tcp_ready, wait_for_tcp_ready,
}
use csi_driver_nfs_export.Node.Attributes.{Attributes}
use csi_driver_nfs_export.Node.Mount.{
  ensure_service, prepare_target, annotate_pod, mount_local, mount_remote, report_mount,
  chmod_if_mismatch, finish_mode, mount_volume,
}
use csi_driver_nfs_export.Node.Publish.{
  PublishRequest, require_capability, check_publish, ensure_statefulset, wait_for_export,
  start_export, publish_volume,
}

module _ (e : Env) (polls : PollsInTime e) where
  pub wait_for_pod_running-Takes :
      (ns name : String) (timeout : ℕ)
      → Takes ((timeout + 2) * 1) (wait_for_pod_running e ns name timeout)
  unfolding wait_for_pod_running is_pod_running
  wait_for_pod_running-Takes ns name timeout =
      polls.checks timeout 1 _ (Takes-bind 1 0 _ _ (Takes-call _ _) λ got. Takes-pure _)

  wait_for_tcp_ready-Takes :
      (host : String) (port timeout : ℕ)
      → Takes ((timeout + 2) * 1) (wait_for_tcp_ready e host port timeout)
  unfolding wait_for_tcp_ready is_tcp_ready
  wait_for_tcp_ready-Takes host port timeout =
      polls.checks timeout 1 _ (Takes-bind 1 0 _ _ (Takes-call _ _) λ probed. Takes-pure _)

  require_capability-Takes : (given : Option Capability) → Takes 0 (require_capability given)
  unfolding require_capability
  require_capability-Takes none = Takes-raise _ _
  require_capability-Takes (some cap) = Takes-pure cap

  check_publish-Takes :
      (permissions : ℕ) (req : PublishRequest) → Takes 0 (check_publish e permissions req)
  unfolding check_publish
  check_publish-Takes permissions req =
      Takes-bind 0 0 _ _ (require_capability-Takes req.capability) λ cap.
        Takes-bind 0 0 _ _ (Takes-raise_if _ _ _) λ _.
          Takes-bind 0 0 _ _ (Takes-raise_if _ _ _) λ _. Takes-bind 0 0 _ _ (Takes-lift _) λ a.
            Takes-bind 0 0 _ _ (Takes-raise_if _ _ _)
              λ _. Takes-bind 0 0 _ _ (Takes-raise_if _ _ _) λ _. Takes-pure a

  ensure_statefulset-Takes :
      (ns : String) (def : StatefulSet) → Takes 2 (ensure_statefulset e ns def)
  unfolding ensure_statefulset
  ensure_statefulset-Takes ns def = Takes-bind 1 1 _ _ (Takes-call _ _) λ found.
      Takes-on_option 1 _ _ _ (Takes-mono 0 1 refl (Takes-pure tt))
        λ _. Takes-bind 1 0 _ _ (Takes-call _ _) λ made. Takes-raise_failure _ _

  wait_for_export-Takes : (id ns : String) → Takes 303 (wait_for_export e id ns)
  unfolding wait_for_export
  wait_for_export-Takes id ns = Takes-bind 1 302 _ _ (Takes-call _ _) λ pod.
      Takes-bind 302 0 _ _ (wait_for_pod_running-Takes ns (id <> "-0") 300)
        λ waited. Takes-bind 0 0 _ _ (Takes-raise_failure _ _) λ _. Takes-pure _

  start_export-Takes : (id : String) (a : Attributes) → Takes 306 (start_export e id a)
  unfolding start_export
  start_export-Takes id a = Takes-bind 1 305 _ _ (Takes-call _ _) λ claim.
      Takes-bind 0 305 _ _ (Takes-raise_failure _ _) λ _.
        Takes-bind 2 303 _ _ (ensure_statefulset-Takes _ _)
          λ _. Takes-bind 303 0 _ _ (wait_for_export-Takes id a.namespace) λ uid. Takes-pure _

  prepare_target-Takes :
      (target : String) (permissions : ℕ) → Takes 2 (prepare_target e target permissions)
  unfolding prepare_target
  prepare_target-Takes target permissions = Takes-bind 1 1 _ _ (Takes-call _ _) λ likely.
      Takes-on_option 1 _ _ _ (Takes-mono 0 1 refl (Takes-pure _)) λ f.
        Takes-if 1 _ _ _
          (Takes-bind 1 0 _ _ (Takes-call _ _)
            λ made. Takes-bind 0 0 _ _ (Takes-raise_failure _ _) λ _. Takes-pure true)
          (Takes-mono 0 1 refl (Takes-raise _ _))

  annotate_pod-Takes : (ns name : String) → Takes 2 (annotate_pod e ns name)
  unfolding annotate_pod
  annotate_pod-Takes ns name = Takes-bind 1 1 _ _ (Takes-call _ _) λ got.
      Takes-on_option 1 _ _ _ (Takes-bind 1 0 _ _ (Takes-call _ _) λ _. Takes-pure tt)
        λ _. Takes-mono 0 1 refl (Takes-pure tt)

  mount_local-Takes :
      (source target : String) (a : Attributes) → Takes 3 (mount_local e source target a)
  unfolding mount_local
  mount_local-Takes source target a = Takes-bind 1 2 _ _ (Takes-call _ _) λ failure.
      Takes-on_option 2 _ _ _ (Takes-bind 2 0 _ _ (annotate_pod-Takes _ _) λ _. Takes-pure none)
        λ f. Takes-mono 0 2 refl (Takes-pure (some f))

  ensure_service-Takes : (ns : String) (service : Service) → Takes 2 (ensure_service e ns service)
  unfolding ensure_service
  ensure_service-Takes ns service = Takes-bind 1 1 _ _ (Takes-call _ _) λ found.
      Takes-on_option 1 _ _ _ (Takes-mono 0 1 refl (Takes-pure _)) λ _.
        Takes-bind 1 0 _ _ (Takes-call _ _)
          λ made. Takes-bind 0 0 _ _ (Takes-raise_failure _ _) λ _. Takes-pure _

  mount_remote-Takes :
      (ns : String) (service : Service) (target : String) (options : List String)
      (earlier : Option Failure)
      → Takes 65 (mount_remote e ns service target options earlier)
  unfolding mount_remote
  mount_remote-Takes ns service target options earlier =
      Takes-bind 2 63 _ _ (ensure_service-Takes ns service) λ svc.
        Takes-bind 62 1 _ _ (wait_for_tcp_ready-Takes svc.cluster_ip 2049 60) λ ready.
          Takes-bind 0 1 _ _ (Takes-raise_failure _ _)
            λ _. Takes-bind 1 0 _ _ (Takes-call _ _) λ _. Takes-pure earlier

  report_mount-Takes : (f : Option Failure) → Takes 0 (report_mount e f)
  unfolding report_mount
  report_mount-Takes none = Takes-pure tt
  report_mount-Takes (some f) = search (Takes-if, Takes-raise)

  chmod_if_mismatch-Takes : (path : String) (mode : ℕ) → Takes 2 (chmod_if_mismatch e path mode)
  unfolding chmod_if_mismatch
  chmod_if_mismatch-Takes path mode = Takes-bind 1 1 _ _ (Takes-call _ _) λ info.
      Takes-on_option 1 _ _ _
        (Takes-if 1 _ _ _ (Takes-mono 0 1 refl (Takes-pure none)) (Takes-call _ _))
        λ f. Takes-mono 0 1 refl (Takes-pure (some f))

  finish_mode-Takes :
      (target : String) (permissions : ℕ) → Takes 2 (finish_mode e target permissions)
  unfolding finish_mode
  finish_mode-Takes target permissions =
      Takes-if 2 _ _ _
        (Takes-bind 2 0 _ _ (chmod_if_mismatch-Takes target _) λ failure. Takes-raise_failure _ _)
        (Takes-mono 0 2 refl (Takes-pure tt))

  mount_volume-Takes :
      (target : String) (a : Attributes) (service : Service) (pod_uid claim_uid : String)
      → Takes 70 (mount_volume e target a service pod_uid claim_uid)
  unfolding mount_volume
  mount_volume-Takes target a service pod_uid claim_uid =
      Takes-bind 1 69 _ _ (Takes-call _ _) λ root. Takes-bind 1 68 _ _ (Takes-call _ _) λ listed.
        Takes-bind 1 67 _ _ (Takes-call _ _) λ tested.
          Takes-bind 65 2 _ _
            (Takes-if 65 (not tested.value) _ _
              (Takes-mono 3 65 refl (mount_local-Takes _ target a))
              (mount_remote-Takes a.namespace service target a.options listed.error))
            λ failure.
              Takes-bind 0 2 _ _ (report_mount-Takes failure)
                λ _. finish_mode-Takes target a.permissions

  pub publish_volume-Takes :
      (permissions : ℕ) (req : PublishRequest) → Takes 378 (publish_volume e permissions req)
  unfolding publish_volume
  publish_volume-Takes permissions req =
      Takes-bind 0 378 _ _ (check_publish-Takes permissions req) λ a.
        Takes-bind 306 72 _ _ (start_export-Takes req.volume_id a) λ uids.
          Takes-bind 2 70 _ _ (prepare_target-Takes req.target_path a.permissions) λ fresh.
            Takes-if 70 fresh _ _ (mount_volume-Takes req.target_path a _ uids.0 uids.1)
              (Takes-mono 0 70 refl (Takes-pure tt))
