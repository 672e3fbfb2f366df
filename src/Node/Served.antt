-- ===== src/Node/Served.antt =====
-- The NFS mounts of `NodePublishVolume`: what precedes each of them.
use csi_driver_nfs_export.Base.{
  String, ◌<>◌, ℕ, Bool, true, false, not, List, [], ◌∷◌, Option, none, some, ◌==◌, ◌≡◌, refl,
  if◌then◌else◌, inl, inr, ◌⊎◌,
}
use csi_driver_nfs_export.Api.Objects.{StatefulSet, Failure, Service, probe_success}
use csi_driver_nfs_export.Api.Calls.{Call, History}
use csi_driver_nfs_export.Api.Exec.{
  Outcome, ok, err, panic, Exec, pure, continue, raise_failure, canceled, ◌>>=◌, ◌>>◌, calls,
}
use csi_driver_nfs_export.Api.Client.{Env, PollsAsDocumented, mount}
use csi_driver_nfs_export.Api.Rules.{Extends, same, more}
use csi_driver_nfs_export.Api.Makes.{Makes-bind, Makes, makes_rules, Does-Makes}
use csi_driver_nfs_export.Pods.{wait_for_tcp_ready}
use csi_driver_nfs_export.Pods.Waiting.{
  wait_for_pod_running-Does, wait_for_tcp_ready-Does, wait_for_tcp_ready_sees,
}
use csi_driver_nfs_export.Controller.Volume.{Capability}
use csi_driver_nfs_export.Node.Attributes.{Attributes}
use csi_driver_nfs_export.Node.Mount.{
  ensure_service, prepare_target, annotate_pod, mount_local, mount_remote, report_mount,
  chmod_if_mismatch, finish_mode, mount_volume,
}
use csi_driver_nfs_export.Node.Publish.{
  PublishRequest, require_capability, check_publish, ensure_statefulset, wait_for_export,
  start_export, publish_volume,
}

abbrev is_nfs_mount : Call → Bool
is_nfs_mount (Call.mount source target fs options) = fs == "nfs"
is_nfs_mount _ = false

-- The call is no NFS mount.
abbrev IsOther : Call → Type 0
IsOther c = is_nfs_mount c ≡ false

-- The call is no NFS mount, or it has as its source the root of a server whose NFS port the call before it has probed,
-- with success.
abbrev IsServed : Env → Call → History → Type 0
IsServed e c h =
    IsOther c
    ⊎ ((ip : String) × (target : String) × (options : List String) × (g : History) × (c
          ≡ Call.mount (ip <> ":/") target "nfs" options)
        × (h ≡ Call.probe_tcp ip 2049 ∷ g)
        × ((e.probed_tcp g ip 2049).error ≡ none)
        × ((e.probed_tcp g ip 2049).value ≡ probe_success))

-- All NFS mounts of the history are served.
abbrev pub AllServed : Env → History → Type 0
AllServed e [] = Unit
AllServed e (c ∷ h) = IsServed e c h × AllServed e h

module _ (e : Env) where
  Extends-AllServed : {h h' : History} → Extends IsOther h h' → AllServed e h → AllServed e h'
  Extends-AllServed same all = all
  Extends-AllServed (more p rest) all = (inl p, Extends-AllServed rest all)

  record Keeps {A : Type 0} (m : Exec A) : Type 0 where
    keeps : (h : History) → AllServed e h → AllServed e (m h).1

  Makes-Keeps : {A : Type 0} {m : Exec A} → Makes IsOther m → Keeps m
  Makes-Keeps d = record { keeps = λ h all. Extends-AllServed (d.extends h) all }

  continue-AllServed :
      {A B : Type 0} (o : Outcome A) (f : A → Exec B) (h : History)
      → ((a : A) → Keeps (f a))
      → AllServed e h
      → AllServed e (continue o f h).1
  continue-AllServed (ok a) f h kept all = (kept a).keeps h all
  continue-AllServed (err c r) f h kept all = all
  continue-AllServed panic f h kept all = all

  Keeps-bind :
      {A B : Type 0} (m : Exec A) (f : A → Exec B)
      → Keeps m
      → ((a : A) → Keeps (f a))
      → Keeps (m >>= f)
  unfolding ◌>>=◌
  Keeps-bind m f km kf = record {
    keeps = λ h all. continue-AllServed (m h).0 f (m h).1 kf (km.keeps h all);
  }

  Keeps-if : {A : Type 0} (b : Bool) (m n : Exec A) → Keeps m → Keeps n → Keeps (if b then m else n)
  Keeps-if true m n km kn = km
  Keeps-if false m n km kn = kn

module _ (e : Env) (polls : PollsAsDocumented e) where
  require_capability-Makes : (given : Option Capability) → Makes IsOther (require_capability given)
  unfolding require_capability
  require_capability-Makes none = search makes_rules
  require_capability-Makes (some cap) = search makes_rules

  check_publish-Makes :
      (permissions : ℕ) (req : PublishRequest) → Makes IsOther (check_publish e permissions req)
  unfolding check_publish
  check_publish-Makes permissions req = search (makes_rules, require_capability-Makes) depth 20

  ensure_statefulset-Makes :
      (ns : String) (def : StatefulSet) → Makes IsOther (ensure_statefulset e ns def)
  unfolding ensure_statefulset
  ensure_statefulset-Makes ns def = search makes_rules depth 20

  wait_for_export-Makes : (id ns : String) → Makes IsOther (wait_for_export e id ns)
  unfolding wait_for_export
  wait_for_export-Makes id ns =
      let waits = Does-Makes (
        wait_for_pod_running-Does e polls {P = IsOther} {Q = λ c. Unit} ns (id <> "-0") 300 refl) in
      Makes-bind _ _ (search makes_rules)
        λ pod. Makes-bind _ _ waits λ waited. search makes_rules depth 8

  start_export-Makes : (id : String) (a : Attributes) → Makes IsOther (start_export e id a)
  unfolding start_export
  start_export-Makes id a = Makes-bind _ _ (search makes_rules) λ claim.
      Makes-bind _ _ (search makes_rules) λ _.
        Makes-bind _ _ (ensure_statefulset-Makes _ _)
          λ _. Makes-bind _ _ (wait_for_export-Makes id a.namespace) λ uid. search makes_rules

  prepare_target-Makes :
      (target : String) (permissions : ℕ) → Makes IsOther (prepare_target e target permissions)
  unfolding prepare_target
  prepare_target-Makes target permissions = search makes_rules depth 20

  mount_local-Makes :
      (source target : String) (a : Attributes) → Makes IsOther (mount_local e source target a)
  unfolding mount_local annotate_pod
  mount_local-Makes source target a = search makes_rules depth 20

  report_mount-Makes : (f : Option Failure) → Makes IsOther (report_mount e f)
  unfolding report_mount
  report_mount-Makes none = search makes_rules
  report_mount-Makes (some f) = search makes_rules depth 8

  finish_mode-Makes :
      (target : String) (permissions : ℕ) → Makes IsOther (finish_mode e target permissions)
  unfolding finish_mode chmod_if_mismatch
  finish_mode-Makes target permissions = search makes_rules depth 20

  ensure_service-Makes :
      (ns : String) (service : Service) → Makes IsOther (ensure_service e ns service)
  unfolding ensure_service
  ensure_service-Makes ns service = search makes_rules depth 20

  -- The mount behind the wait for the port, on every outcome of the wait.
  mount_when_ready :
      (ip target : String) (options : List String) (earlier : Option Failure) (h h' : History)
      (o : Outcome (Option Failure))
      → wait_for_tcp_ready e ip 2049 60 h ≡ (o, h')
      → AllServed e h'
      → AllServed e
          (continue o
            (λ ready. do
              raise_failure canceled ready
              mount e (ip <> ":/") target "nfs" options
              pure earlier)
            h').1
  unfolding ◌>>=◌
  mount_when_ready ip target options earlier h h' (ok none) q all =
      let (g, fine, success, last) = wait_for_tcp_ready_sees e polls ip 2049 60 h h' q in
      (inr (ip, target, options, g, refl, last, fine, success), all)
  mount_when_ready ip target options earlier h h' (ok (some f)) q all = all
  mount_when_ready ip target options earlier h h' (err c r) q all = all
  mount_when_ready ip target options earlier h h' panic q all = all

  mount_remote-Keeps :
      (ns : String) (service : Service) (target : String) (options : List String)
      (earlier : Option Failure)
      → Keeps e (mount_remote e ns service target options earlier)
  unfolding mount_remote ◌>>=◌
  mount_remote-Keeps ns service target options earlier =
      Keeps-bind e _ _ (Makes-Keeps e (ensure_service-Makes ns service)) λ svc. record {
        keeps = λ h all.
            let waits = Does-Makes (
              wait_for_tcp_ready-Does e polls {P = IsOther} {Q = λ c. Unit} svc.cluster_ip 2049 60
                refl) in
            mount_when_ready svc.cluster_ip target options earlier h _ _ refl
              (Extends-AllServed e (waits.extends h) all);
      }

  mount_volume-Keeps :
      (target : String) (a : Attributes) (service : Service) (pod_uid claim_uid : String)
      → Keeps e (mount_volume e target a service pod_uid claim_uid)
  unfolding mount_volume
  mount_volume-Keeps target a service pod_uid claim_uid =
      Keeps-bind e _ _ (Makes-Keeps e (search makes_rules)) λ root.
        Keeps-bind e _ _ (Makes-Keeps e (search makes_rules)) λ listed.
          Keeps-bind e _ _ (Makes-Keeps e (search makes_rules)) λ tested.
            Keeps-bind e _ _
              (Keeps-if e (not tested.value) _ _ (Makes-Keeps e (mount_local-Makes _ target a))
                (mount_remote-Keeps a.namespace service target a.options listed.error))
              λ failure.
                Keeps-bind e _ _ (Makes-Keeps e (report_mount-Makes failure))
                  λ _. Makes-Keeps e (finish_mode-Makes target a.permissions)

  -- In the calls of `NodePublishVolume`, on every branch, if the polling loop does what its
  -- documentation says, each NFS mount comes directly after a successful probe of port 2049 of the
  -- server that it mounts; if that holds of the calls before, it holds of all.
  pub publish_volume_served :
      (permissions : ℕ) (req : PublishRequest) (h : History)
      → AllServed e h
      → AllServed e (calls (publish_volume e permissions req h))
  unfolding publish_volume
  publish_volume_served permissions req =
      (Keeps-bind e _ _ (Makes-Keeps e (check_publish-Makes permissions req)) λ a.
        Keeps-bind e _ _ (Makes-Keeps e (start_export-Makes req.volume_id a)) λ uids.
          Keeps-bind e _ _ (Makes-Keeps e (prepare_target-Makes req.target_path a.permissions))
            λ fresh.
              Keeps-if e fresh _ _ (mount_volume-Keeps req.target_path a _ uids.0 uids.1)
                (Makes-Keeps e (search makes_rules))).keeps
