-- ===== src/Api/Client.antt =====
-- The environment of the driver, which is code outside the repository: its answer to each call,
-- from the calls made before it, and the polling loop of apimachinery's `wait` package.
use csi_driver_nfs_export.Base.{String, ℕ, Bool, true, false, Option, none, some, List, ◌≡◌}
use csi_driver_nfs_export.Api.Objects.{
  Pvc, StatefulSet, Service, Pod, Pv, StorageClass, Metrics, Failure, Reply, ProbeResult,
}
use csi_driver_nfs_export.Api.Calls.{Call, History}
use csi_driver_nfs_export.Api.Exec.{Outcome, ok, err, panic, Code, Reason, Exec, call}

-- Answers may change from call to call: other nodes, controllers and kubelets act in between.
pub record Env : Type 0 where
  pub pvc : History → String → String → Reply Pvc
  pub created_pvc : History → String → Pvc → Reply Pvc
  pub deleted_pvc : History → String → String → Option Failure
  pub pvcs : History → Reply (List Pvc)
  pub pvs : History → Reply (List Pv)
  pub storage_classes : History → Reply (List StorageClass)
  pub statefulset : History → String → String → Reply StatefulSet
  pub created_statefulset : History → String → StatefulSet → Reply StatefulSet
  pub deleted_statefulset : History → String → String → Option Failure
  pub service : History → String → String → Reply Service
  pub created_service : History → String → Service → Reply Service
  pub deleted_service : History → String → String → Option Failure
  pub pod : History → String → String → Reply Pod
  pub updated_pod : History → String → Pod → Option Failure
  pub pods : History → String → Reply (List Pod)
  pub probed_tcp : History → String → ℕ → Reply ProbeResult
  pub likely_not_mount_point : History → String → Reply Bool
  pub not_mount_point : History → String → Reply Bool
  pub mounted : History → String → String → String → List String → Option Failure
  pub cleaned_up : History → String → Bool → Option Failure
  pub made_dirs : History → String → ℕ → Option Failure
  pub dir_names : History → String → Reply (List String)
  pub environment : History → String → String
  pub mode : History → String → Reply ℕ
  pub changed_mode : History → String → ℕ → Option Failure
  pub metrics : History → String → Reply Metrics
  -- wait.PollImmediate(interval, timeout, condition), in seconds
  pub poll_immediate : ℕ → ℕ → Exec (Reply Bool) → Exec (Option Failure)

-- What the documentation of wait.PollImmediate promises: the condition runs at once and then
-- again and again, until it is true, it fails, or the time is up.
pub data Polled (condition : Exec (Reply Bool))
    : History → Outcome (Option Failure) × History → Type 0 where
  done :
      {h h' : History}
      → condition h ≡ (ok (record { value = true; error = none }), h')
      → Polled condition h (ok none, h')
  broken :
      {h h' : History} {b : Bool} {f : Failure}
      → condition h ≡ (ok (record { value = b; error = some f }), h')
      → Polled condition h (ok (some f), h')
  timed_out :
      {h h' : History} {f : Failure}
      → condition h ≡ (ok (record { value = false; error = none }), h')
      → Polled condition h (ok (some f), h')
  -- A status or a panic of the condition leaves the loop.
  refused :
      {h h' : History} {c : Code} {r : Reason}
      → condition h ≡ (err c r, h')
      → Polled condition h (err c r, h')
  panicked : {h h' : History} → condition h ≡ (panic, h') → Polled condition h (panic, h')
  again :
      {h h' : History} {r : Outcome (Option Failure) × History}
      → condition h ≡ (ok (record { value = false; error = none }), h')
      → Polled condition h' r
      → Polled condition h r

pub record PollsAsDocumented (e : Env) : Type 0 where
  pub polled :
      (interval timeout : ℕ) (condition : Exec (Reply Bool)) (h : History)
      → Polled condition h (e.poll_immediate interval timeout condition h)

module _ (e : Env) where
  abbrev pub get_pvc : String → String → Exec (Reply Pvc)
  get_pvc ns name = call (λ h. e.pvc h ns name) (Call.get_pvc ns name)

  abbrev pub create_pvc : String → Pvc → Exec (Reply Pvc)
  create_pvc ns def = call (λ h. e.created_pvc h ns def) (Call.create_pvc ns def)

  abbrev pub delete_pvc : String → String → Exec (Option Failure)
  delete_pvc ns name = call (λ h. e.deleted_pvc h ns name) (Call.delete_pvc ns name)

  abbrev pub list_pvcs : Exec (Reply (List Pvc))
  list_pvcs = call (λ h. e.pvcs h) Call.list_pvcs

  abbrev pub list_pvs : Exec (Reply (List Pv))
  list_pvs = call (λ h. e.pvs h) Call.list_pvs

  abbrev pub list_storage_classes : Exec (Reply (List StorageClass))
  list_storage_classes = call (λ h. e.storage_classes h) Call.list_storage_classes

  abbrev pub get_statefulset : String → String → Exec (Reply StatefulSet)
  get_statefulset ns name = call (λ h. e.statefulset h ns name) (Call.get_statefulset ns name)

  abbrev pub create_statefulset : String → StatefulSet → Exec (Reply StatefulSet)
  create_statefulset ns def =
      call (λ h. e.created_statefulset h ns def) (Call.create_statefulset ns def)

  abbrev pub delete_statefulset : String → String → Exec (Option Failure)
  delete_statefulset ns name =
      call (λ h. e.deleted_statefulset h ns name) (Call.delete_statefulset ns name)

  abbrev pub get_service : String → String → Exec (Reply Service)
  get_service ns name = call (λ h. e.service h ns name) (Call.get_service ns name)

  abbrev pub create_service : String → Service → Exec (Reply Service)
  create_service ns def = call (λ h. e.created_service h ns def) (Call.create_service ns def)

  abbrev pub delete_service : String → String → Exec (Option Failure)
  delete_service ns name = call (λ h. e.deleted_service h ns name) (Call.delete_service ns name)

  abbrev pub get_pod : String → String → Exec (Reply Pod)
  get_pod ns name = call (λ h. e.pod h ns name) (Call.get_pod ns name)

  abbrev pub update_pod : String → Pod → Exec (Option Failure)
  update_pod ns def = call (λ h. e.updated_pod h ns def) (Call.update_pod ns def)

  abbrev pub list_pods : String → Exec (Reply (List Pod))
  list_pods ns = call (λ h. e.pods h ns) (Call.list_pods ns)

  abbrev pub probe_tcp : String → ℕ → Exec (Reply ProbeResult)
  probe_tcp host port = call (λ h. e.probed_tcp h host port) (Call.probe_tcp host port)

  abbrev pub is_likely_not_mount_point : String → Exec (Reply Bool)
  is_likely_not_mount_point path =
      call (λ h. e.likely_not_mount_point h path) (Call.is_likely_not_mount_point path)

  abbrev pub is_not_mount_point : String → Exec (Reply Bool)
  is_not_mount_point path = call (λ h. e.not_mount_point h path) (Call.is_not_mount_point path)

  abbrev pub mount : String → String → String → List String → Exec (Option Failure)
  mount source target fs options =
      call (λ h. e.mounted h source target fs options) (Call.mount source target fs options)

  abbrev pub cleanup_mount_point : String → Bool → Exec (Option Failure)
  cleanup_mount_point path extensive =
      call (λ h. e.cleaned_up h path extensive) (Call.cleanup_mount_point path extensive)

  abbrev pub mkdir_all : String → ℕ → Exec (Option Failure)
  mkdir_all path mode = call (λ h. e.made_dirs h path mode) (Call.mkdir_all path mode)

  abbrev pub read_dir : String → Exec (Reply (List String))
  read_dir path = call (λ h. e.dir_names h path) (Call.read_dir path)

  abbrev pub getenv : String → Exec String
  getenv name = call (λ h. e.environment h name) (Call.getenv name)

  abbrev pub lstat : String → Exec (Reply ℕ)
  lstat path = call (λ h. e.mode h path) (Call.lstat path)

  abbrev pub chmod : String → ℕ → Exec (Option Failure)
  chmod path mode = call (λ h. e.changed_mode h path mode) (Call.chmod path mode)

  abbrev pub stat_fs : String → Exec (Reply Metrics)
  stat_fs path = call (λ h. e.metrics h path) (Call.stat_fs path)
