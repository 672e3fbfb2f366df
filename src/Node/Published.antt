-- ===== src/Node/Published.antt =====
-- What `NodePublishVolume` does, whatever the environment answers.
use csi_driver_nfs_export.Base.{
  String, ◌<>◌, ℕ, not, Option, none, some, ◌==◌, ◌≡◌, refl, if◌then◌else◌, ◌⊎◌, inl, inr,
  Bool-cases,
}
use csi_driver_nfs_export.Api.Objects.{Failure, Service}
use csi_driver_nfs_export.Api.Calls.{Call, History}
use csi_driver_nfs_export.Api.Exec.{
  Code, Reason, ok, err, pure, ◌>>=◌, invalid_argument, canceled, internal, permission_denied,
  id_missing, target_missing, parameter_required,
}
use csi_driver_nfs_export.Api.Client.{Env, PollsAsDocumented}
use csi_driver_nfs_export.Api.Rules.{
  Does, does_rules, Does-bind, Does-pure, Does-if, Does-bind_steady,
}
use csi_driver_nfs_export.Pods.Waiting.{wait_for_pod_running-Does, wait_for_tcp_ready-Does}
use csi_driver_nfs_export.Node.Attributes.{Attributes, start_attributes, read_attributes}
use csi_driver_nfs_export.Node.Export.{statefulset_def, service_def}
use csi_driver_nfs_export.Node.Mount.{
  prepare_target, annotate_pod, mount_local, mount_remote, ensure_service, report_mount,
  finish_mode, chmod_if_mismatch, mount_volume, local_source, pod_volume_dir,
}
use csi_driver_nfs_export.Node.Publish.{
  PublishRequest, require_capability, check_publish, ensure_statefulset, wait_for_export,
  start_export, publish_volume,
}
use csi_driver_nfs_export.Controller.Volume.{Capability}
use csi_driver_nfs_export.Params.{param_data_volume_claim, param_data_namespace}

-- The calls that `NodePublishVolume` may make for a volume: it reads, and it creates the volume's
-- StatefulSet and Service in the backend's namespace, annotates the application's pod, and makes,
-- mounts and changes the target only. It deletes and unmounts nothing.
abbrev pub IsPublishCall : PublishRequest → Attributes → Call → Type 0
IsPublishCall req a (Call.create_statefulset ns def) =
    (ns ≡ a.namespace) × (def.name ≡ req.volume_id)
IsPublishCall req a (Call.create_service ns def) = (ns ≡ a.namespace) × (def.name ≡ req.volume_id)
IsPublishCall req a (Call.update_pod ns pod) = ns ≡ a.app_namespace
IsPublishCall req a (Call.mount source target fs options) = target ≡ req.target_path
IsPublishCall req a (Call.mkdir_all path mode) = path ≡ req.target_path
IsPublishCall req a (Call.chmod path mode) = path ≡ req.target_path
IsPublishCall req a (Call.create_pvc ns def) = ⊥
IsPublishCall req a (Call.delete_pvc ns name) = ⊥
IsPublishCall req a (Call.delete_statefulset ns name) = ⊥
IsPublishCall req a (Call.delete_service ns name) = ⊥
IsPublishCall req a (Call.cleanup_mount_point path extensive) = ⊥
IsPublishCall req a _ = Unit

abbrev pub IsPublishCode : Code → Type 0
IsPublishCode c = (c ≡ invalid_argument) ⊎ (c ≡ canceled) ⊎ (c ≡ internal) ⊎ (c ≡ permission_denied)

invalid-fits : IsPublishCode invalid_argument
invalid-fits = inl refl

canceled-fits : IsPublishCode canceled
canceled-fits = inr (inl refl)

internal-fits : IsPublishCode internal
internal-fits = inr (inr (inl refl))

denied-fits : IsPublishCode permission_denied
denied-fits = inr (inr (inr refl))

ruleset code_rules = (invalid-fits, canceled-fits, internal-fits, denied-fits)

module _ (e : Env) (polls : PollsAsDocumented e) (req : PublishRequest) (a : Attributes) where
  ensure_service-Does :
      (service : Service)
      → service.name ≡ req.volume_id
      → Does (IsPublishCall req a) IsPublishCode (ensure_service e a.namespace service)
  unfolding ensure_service
  ensure_service-Does service named =
      let creates : IsPublishCall req a (Call.create_service a.namespace service) = (refl, named) in
      search (does_rules, canceled-fits, creates) depth 12

  ensure_statefulset-Does :
      (claim uid image hosts : String)
      → Does
          (IsPublishCall req a)
          IsPublishCode
          (ensure_statefulset e a.namespace (statefulset_def req.volume_id claim uid image hosts))
  unfolding ensure_statefulset statefulset_def
  ensure_statefulset-Does claim uid image hosts = search (does_rules, code_rules) depth 12

  wait_for_export-Does :
      Does (IsPublishCall req a) IsPublishCode (wait_for_export e req.volume_id a.namespace)
  unfolding wait_for_export
  wait_for_export-Does = Does-bind _ _ (search (does_rules, code_rules)) λ pod.
      Does-bind _ _ (wait_for_pod_running-Does e polls a.namespace (req.volume_id <> "-0") 300 tt)
        λ waited. search (does_rules, code_rules) depth 8

  pub start_export-Does : Does (IsPublishCall req a) IsPublishCode (start_export e req.volume_id a)
  unfolding start_export
  start_export-Does = Does-bind _ _ (search (does_rules, code_rules)) λ claim.
      Does-bind _ _ (search (does_rules, code_rules)) λ _.
        Does-bind _ _ (ensure_statefulset-Does _ _ _ _)
          λ _. Does-bind _ _ wait_for_export-Does λ uid. Does-pure _

  prepare_target-Does :
      Does (IsPublishCall req a) IsPublishCode (prepare_target e req.target_path a.permissions)
  unfolding prepare_target
  prepare_target-Does = search (does_rules, code_rules) depth 12

  mount_local-Does :
      (source : String)
      → Does (IsPublishCall req a) IsPublishCode (mount_local e source req.target_path a)
  unfolding mount_local annotate_pod
  mount_local-Does source = search (does_rules, code_rules) depth 14

  report_mount-Does :
      (f : Option Failure) → Does (IsPublishCall req a) IsPublishCode (report_mount e f)
  unfolding report_mount
  report_mount-Does none = search (does_rules, code_rules)
  report_mount-Does (some f) = search (does_rules, code_rules) depth 8

  finish_mode-Does :
      Does (IsPublishCall req a) IsPublishCode (finish_mode e req.target_path a.permissions)
  unfolding finish_mode chmod_if_mismatch
  finish_mode-Does = search (does_rules, code_rules) depth 14

  mount_remote-Does :
      (service : Service) (earlier : Option Failure)
      → service.name ≡ req.volume_id
      → Does
          (IsPublishCall req a)
          IsPublishCode
          (mount_remote e a.namespace service req.target_path a.options earlier)
  unfolding mount_remote
  mount_remote-Does service earlier named = Does-bind _ _ (ensure_service-Does service named) λ svc.
      Does-bind _ _ (wait_for_tcp_ready-Does e polls svc.cluster_ip 2049 60 tt)
        λ ready. search (does_rules, code_rules) depth 10

  mount_volume-Does :
      (service : Service) (pod_uid claim_uid : String)
      → service.name ≡ req.volume_id
      → Does
          (IsPublishCall req a)
          IsPublishCode
          (mount_volume e req.target_path a service pod_uid claim_uid)
  unfolding mount_volume
  mount_volume-Does service pod_uid claim_uid named =
      Does-bind _ _ (search (does_rules, code_rules)) λ root.
        Does-bind _ _ (search (does_rules, code_rules)) λ listed.
          Does-bind _ _ (search (does_rules, code_rules)) λ tested.
            Does-bind _ _
              (Does-if (not tested.value)
                (mount_local e (local_source (pod_volume_dir root pod_uid) claim_uid listed)
                  req.target_path a)
                (mount_remote e a.namespace service req.target_path a.options listed.error)
                (λ _. mount_local-Does _) (λ _. mount_remote-Does service _ named))
              λ failure. Does-bind _ _ (report_mount-Does failure) λ _. finish_mode-Does

  -- The steps behind the start of the export.
  pub finish_publish-Does :
      (uids : String × String)
      → Does (IsPublishCall req a) IsPublishCode (
          prepare_target e req.target_path a.permissions >>= λ fresh.
          (if fresh
            then mount_volume e req.target_path a
                (service_def req.volume_id a.claim uids.1)
                uids.0
                uids.1
            else pure tt))
  unfolding service_def
  finish_publish-Does uids = Does-bind _ _ prepare_target-Does λ fresh.
      Does-if fresh
        (mount_volume e req.target_path a (service_def req.volume_id a.claim uids.1) uids.0 uids.1)
        (pure tt) (λ _. mount_volume-Does _ uids.0 uids.1 refl) (λ _. Does-pure tt)

  -- The checks answer with the attributes, or refuse.
  check_publish_cases :
      (permissions : ℕ) (given : Capability) (h : History)
      → req.capability ≡ some given
      → read_attributes req.context (start_attributes given.mount_flags req.readonly permissions)
        ≡ ok a
      → (check_publish e permissions req h ≡ (ok a, h))
        ⊎ ((r : Reason) × (check_publish e permissions req h ≡ (err invalid_argument r, h)))
  unfolding check_publish require_capability ◌>>=◌
  check_publish_cases permissions given h has read = elim (Bool-cases (req.volume_id == "")) [
    | inl p ↦ inr (id_missing, rw (has, p))
    | inr p ↦ elim (Bool-cases (req.target_path == "")) [
      | inl q ↦ inr (target_missing, rw (has, p, q))
      | inr q ↦ elim (Bool-cases (a.claim == "")) [
        | inl r ↦ inr (parameter_required param_data_volume_claim, rw (has, p, q, read, r))
        | inr r ↦ elim (Bool-cases (a.namespace == "")) [
          | inl s ↦ inr (parameter_required param_data_namespace, rw (has, p, q, read, r, s))
          | inr s ↦ inl (rw (has, p, q, read, r, s))
        ]
      ]
    ]
  ]

  -- When the context is read as `a`, `NodePublishVolume` ends with a response or with
  -- InvalidArgument, Canceled, Internal or PermissionDenied, never with a panic, and it makes only
  -- the calls of `IsPublishCall`, if the polling loop does what its documentation says.
  pub publish_volume-Does :
      (permissions : ℕ) (given : Capability)
      → req.capability ≡ some given
      → read_attributes req.context (start_attributes given.mount_flags req.readonly permissions)
        ≡ ok a
      → Does (IsPublishCall req a) IsPublishCode (publish_volume e permissions req)
  unfolding publish_volume
  publish_volume-Does permissions given has read =
      Does-bind_steady _ _ (λ h. check_publish_cases permissions given h has read) invalid-fits
        (Does-bind _ _ start_export-Does λ uids. finish_publish-Does uids)
