-- ===== src/Pods.antt =====
-- pkg/nfsexport/k8utils.go: waiting for pods and for TCP ports. The conditions are handed to the
-- polling loop, which is outside the repository.
pub mod Waiting
pub mod Lookup
mod Tests
use csi_driver_nfs_export.Base.{
  String, ℕ, pos, Bool, true, false, List, [], ◌∷◌, Option, none, some, ◌==◌, if◌then◌else◌,
}
use csi_driver_nfs_export.Api.Objects.{
  Phase, running, failed, succeeded, Pvc, Failure, Reply, probe_success,
}
use csi_driver_nfs_export.Api.Exec.{Exec, pure, ◌>>=◌}
use csi_driver_nfs_export.Api.Client.{Env, get_pod, list_pvcs, probe_tcp}

-- conditions.ErrPodCompleted
abbrev pub pod_completed : Failure
pod_completed = record { message = "pod ran to completion"; not_exist = false; permission = false }

abbrev answer : Bool → Option Failure → Reply Bool
answer b f = record { value = b; error = f }

-- The `switch` of `isPodRunning`, on the phase that was read.
unfoldable pub running_answer : Phase → Reply Bool
running_answer running = answer true none
running_answer failed = answer false (some pod_completed)
running_answer succeeded = answer false (some pod_completed)
running_answer _ = answer false none

-- The `switch` of `isPodNotRunning`.
unfoldable pub not_running_answer : Phase → Reply Bool
not_running_answer running = answer false none
not_running_answer failed = answer true (some pod_completed)
not_running_answer succeeded = answer true (some pod_completed)
not_running_answer _ = answer true none

-- `getPVCByUidStr`: the loop variable keeps the last claim of the list if none has the identifier,
-- and the name of the variable decides.
unfoldable pub last_visited : String → Pvc → List Pvc → Pvc
last_visited uid pvc [] = pvc
last_visited uid pvc (next ∷ rest) =
    let later = last_visited uid next rest in if next.uid == uid then next else later

abbrev pub no_pvc : Pvc
no_pvc = record {
  name = "";
  uid = "";
  labels = [];
  storage_class_name = "";
  access_modes = [];
  storage = pos 0;
}

module _ (e : Env) where
  unfoldable pub is_pod_running : String → String → Exec (Reply Bool)
  unfolding running_answer
  is_pod_running name ns = do
    got ← get_pod e ns name
    pure (elim got.error [ none ↦ running_answer got.value.phase | some f ↦ answer false (some f) ])

  unfoldable pub is_pod_not_running : String → String → Exec (Reply Bool)
  unfolding not_running_answer
  is_pod_not_running name ns = do
    got ← get_pod e ns name
    pure (elim got.error [
      | none ↦ not_running_answer got.value.phase
      | some f ↦ answer true (some f)
    ])

  unfoldable pub wait_for_pod_running : String → String → ℕ → Exec (Option Failure)
  wait_for_pod_running ns name timeout = e.poll_immediate 1 timeout (is_pod_running name ns)

  unfoldable pub wait_for_pod_not_running : String → String → ℕ → Exec (Option Failure)
  wait_for_pod_not_running ns name timeout = e.poll_immediate 1 timeout (is_pod_not_running name ns)

  unfoldable pub is_tcp_ready : String → ℕ → Exec (Reply Bool)
  is_tcp_ready host port = do
    probed ← probe_tcp e host port
    pure (elim probed.error [
      | some f ↦ answer false (some f)
      | none ↦ elim probed.value [ probe_success ↦ answer true none | _ ↦ answer false none ]
    ])

  unfoldable pub wait_for_tcp_ready : String → ℕ → ℕ → Exec (Option Failure)
  wait_for_tcp_ready host port timeout = e.poll_immediate 1 timeout (is_tcp_ready host port)

  -- none stands for the two errors, which carry a text only.
  unfoldable pub get_pvc_by_uid : String → Exec (Option Pvc)
  unfolding last_visited
  get_pvc_by_uid uid = do
    list ← list_pvcs e
    pure (elim list.error [
      | some _ ↦ none
      | none ↦
          let pvc = last_visited uid no_pvc list.value in if pvc.name == "" then none else some pvc
    ])
