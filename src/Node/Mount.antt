-- ===== src/Node/Mount.antt =====
-- The mounting steps of `NodePublishVolume`, and `chmodIfPermissionMismatch` of utils.go.
use csi_driver_nfs_export.Base.{
  String, ◌<>◌, ℕ, ◌%◌, ◌^◌, Bool, true, not, ◌||◌, List, [], ◌∷◌, Option, none, some, ◌==◌,
  if◌then◌else◌, ltb, nat_eq,
}
use csi_driver_nfs_export.Base.Strings.{contains}
use csi_driver_nfs_export.Base.Entries.{assign}
use csi_driver_nfs_export.Api.Objects.{Reply, Failure, Pod, Service}
use csi_driver_nfs_export.Api.Exec.{
  on_option, Exec, pure, raise, ◌>>=◌, ◌>>◌, raise_failure, invalid_argument, canceled, internal,
  permission_denied, caused_by,
}
use csi_driver_nfs_export.Api.Client.{
  Env, get_service, create_service, get_pod, update_pod, is_likely_not_mount_point,
  is_not_mount_point, mount, mkdir_all, read_dir, getenv, lstat, chmod,
}
use csi_driver_nfs_export.Pods.{wait_for_tcp_ready}
use csi_driver_nfs_export.Node.Attributes.{Attributes}

-- os.FileMode(n): a mode has 32 bits.
unfoldable pub file_mode : ℕ → ℕ
file_mode n = n % 2 ^ 32

-- The directories of a pod's volumes that hold no data volume.
unfoldable pub is_skipped : String → Bool
is_skipped name =
    name == "kubernetes.io~secret"
    || name == "kubernetes.io~configmap"
    || name == "kubernetes.io~empty-dir"
    || name == "kubernetes.io~downward-api"

unfoldable pub mount_point_in : String → String → String → String
mount_point_in dir uid name =
    let mount_point = dir <> "/" <> name <> "/pvc-" <> uid in
    if name == "kubernetes.io~csi" then mount_point <> "/mount" else mount_point

-- The loop over the directory's entries. The `break`s leave the `switch` only.
unfoldable pub find_source : String → String → List String → String → String
unfolding is_skipped mount_point_in
find_source dir uid [] source = source
find_source dir uid (name ∷ names) source =
    find_source dir uid names (if is_skipped name then source else mount_point_in dir uid name)

unfoldable pub pod_volume_dir : String → String → String
pod_volume_dir root uid = root <> "/pods/" <> uid <> "/volumes/"

-- The source of the local mount; the empty text where the directory cannot be read.
unfoldable pub local_source : String → String → Reply (List String) → String
unfolding find_source
local_source dir uid listed = elim listed.error [
  | some _ ↦ ""
  | none ↦ find_source dir uid listed.value ""
]

module _ (e : Env) where
  -- `chmodIfPermissionMismatch` of utils.go; os.ModePerm is 0777.
  unfoldable pub chmod_if_mismatch : String → ℕ → Exec (Option Failure)
  chmod_if_mismatch path mode = do
    info ← lstat e path
    on_option info.error (if nat_eq (info.value % 512) mode then pure none else chmod e path mode)
        (λ f. pure (some f))

  unfoldable pub ensure_service : String → Service → Exec Service
  ensure_service ns def = do
    found ← get_service e ns def.name
    on_option found.error (pure found.value)
        (λ _. do made ← create_service e ns def; raise_failure canceled made.error; pure made.value)

  -- Whether the target is no mount point yet; a missing directory is made.
  unfoldable pub prepare_target : String → ℕ → Exec Bool
  unfolding file_mode
  prepare_target target permissions = do
    likely ← is_likely_not_mount_point e target
    on_option likely.error (pure likely.value) (λ f.
        if f.not_exist
        then (do
          made ← mkdir_all e target (file_mode permissions)
          raise_failure internal made
          pure true)
        else raise internal (caused_by f))

  -- The application's pod gets the highest deletion cost; failures are logged only.
  unfoldable pub annotate_pod : String → String → Exec (Unit {0})
  unfolding assign
  annotate_pod ns name = do
    got ← get_pod e ns name
    let cost =
        assign "controller.kubernetes.io/pod-deletion-cost" "2147483647" got.value.annotations
    let pod : Pod = record got.value { annotations = cost }
    on_option got.error (do update_pod e ns pod; pure tt) (λ _. pure tt)

  unfoldable pub mount_local : String → String → Attributes → Exec (Option Failure)
  unfolding annotate_pod
  mount_local source target a = do
    failure ← mount e source target "" ("bind" ∷ [])
    on_option failure (do annotate_pod a.app_namespace a.app_pod; pure none) (λ f. pure (some f))

  -- `nfsSVC, err := …` declares a second `err` for this block, so that the mount's failure stays in
  -- the block, and the `err` behind the block is the one from before.
  unfoldable pub mount_remote :
      String → Service → String → List String → Option Failure → Exec (Option Failure)
  unfolding ensure_service
  mount_remote ns service target options earlier = do
    svc ← ensure_service ns service
    ready ← wait_for_tcp_ready e svc.cluster_ip 2049 60
    raise_failure canceled ready
    mount e (svc.cluster_ip <> ":/") target "nfs" options
    pure earlier

  -- The three tests of `err` behind the mounts.
  unfoldable pub report_mount : Option Failure → Exec (Unit {0})
  report_mount none = pure tt
  report_mount (some f) =
      if f.permission
      then raise permission_denied (caused_by f)
      else if contains f.message "invalid argument"
      then raise invalid_argument (caused_by f)
      else raise internal (caused_by f)

  unfoldable pub finish_mode : String → ℕ → Exec (Unit {0})
  unfolding chmod_if_mismatch file_mode
  finish_mode target permissions =
      if ltb 0 permissions
      then (do
        failure ← chmod_if_mismatch target (file_mode permissions)
        raise_failure internal failure)
      else pure tt

  -- The local mount if the source is a mount point on this node, and the NFS mount if not.
  unfoldable pub mount_volume : String → Attributes → Service → String → String → Exec (Unit {0})
  unfolding local_source pod_volume_dir mount_local mount_remote report_mount finish_mode
  mount_volume target a service pod_uid claim_uid = do
    root ← getenv e "KUBELET_ROOT"
    let dir = pod_volume_dir root pod_uid
    listed ← read_dir e dir
    let source = local_source dir claim_uid listed
    tested ← is_not_mount_point e source
    failure ←
        (if not tested.value
          then mount_local source target a
          else mount_remote a.namespace service target a.options listed.error)
    report_mount failure
    finish_mode target a.permissions
