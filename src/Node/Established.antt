-- ===== src/Node/Established.antt =====
-- What a successful `NodePublishVolume` has established.
use csi_driver_nfs_export.Base.{String, ◌<>◌, ℕ, ◌∷◌, Option, none, some, ◌≡◌, ◌∙◌, ap}
use csi_driver_nfs_export.Api.Objects.{running}
use csi_driver_nfs_export.Api.Calls.{Call, History}
use csi_driver_nfs_export.Api.Exec.{Outcome, ok, pure, raise}
use csi_driver_nfs_export.Api.Client.{Env, PollsAsDocumented}
use mathlib.Core.Path.{subst}
use csi_driver_nfs_export.Node.Published.{IsPublishCall, start_export-Does, finish_publish-Does}
use csi_driver_nfs_export.Api.Rules.{
  Extends, bind_ok, call_ok, pure_ok, lift_ok, raise_failure_ok, raise_if_ok,
}
use csi_driver_nfs_export.Controller.Volume.{Capability}
use csi_driver_nfs_export.Pods.Waiting.{wait_for_pod_running_sees}
use csi_driver_nfs_export.Node.Attributes.{Attributes, start_attributes, read_attributes}
use csi_driver_nfs_export.Node.Publish.{
  PublishRequest, require_capability, check_publish, wait_for_export, start_export, publish_volume,
}

-- The pod that exports the volume was found running when it was looked at after the calls `g`.
abbrev pub IsSeenRunning : Env → String → String → History → Type 0
IsSeenRunning e ns name g =
    ((e.pod g ns name).error ≡ none) × ((e.pod g ns name).value.phase ≡ running)

require_capability_ok :
    (o : Option Capability) {h h' : History} {given : Capability}
    → require_capability o h ≡ (ok given, h')
    → (o ≡ some given) × (h' ≡ h)
unfolding require_capability pure raise
require_capability_ok none q = cc
require_capability_ok (some given) q = (cc, cc)

pub check_publish_ok :
    (e : Env) (permissions : ℕ) (req : PublishRequest) (h h' : History) {a : Attributes}
    → check_publish e permissions req h ≡ (ok a, h')
    → (h' ≡ h)
      × ((given : Capability) × (req.capability ≡ some given)
          × (read_attributes req.context
                (start_attributes given.mount_flags req.readonly permissions)
              ≡ ok a))
unfolding check_publish
check_publish_ok e permissions req h h' q =
    let (given, h1, p1, q1) = bind_ok _ _ q in
    let (_, h2, p2, q2) = bind_ok _ _ q1 in
    let (_, h3, p3, q3) = bind_ok _ _ q2 in
    let (a', h4, p4, q4) = bind_ok _ _ q3 in
    let (_, h5, p5, q5) = bind_ok _ _ q4 in
    let (_, h6, p6, q6) = bind_ok _ _ q5 in
    let (has, e1) = require_capability_ok _ p1 in
    let (_, e2) = raise_if_ok _ _ _ p2 in
    let (_, e3) = raise_if_ok _ _ _ p3 in
    let (_, e5) = raise_if_ok _ _ _ p5 in
    let (_, e6) = raise_if_ok _ _ _ p6 in
    let (read, e4) = lift_ok _ p4 in
    let (kept, e7) = pure_ok _ q6 in
    (e7 ∙ e6 ∙ e5 ∙ e4 ∙ e3 ∙ e2 ∙ e1, (given, has, read ∙ ap (λ b. ok b) kept))

module _ (e : Env) (polls : PollsAsDocumented e) where
  wait_for_export_ok :
      (id ns : String) (h h' : History) {uid : String}
      → wait_for_export e id ns h ≡ (ok uid, h')
      → (g : History) × IsSeenRunning e ns (id <> "-0") g × (h' ≡ Call.get_pod ns (id <> "-0") ∷ g)
  unfolding wait_for_export
  wait_for_export_ok id ns h h' q =
      let (_, h4, p4, q4) = bind_ok _ _ q in
      let (waited, h5, p5, q5) = bind_ok _ _ q4 in
      let (_, h6, p6, q6) = bind_ok _ _ q5 in
      let (finished, same6) = raise_failure_ok _ _ p6 in
      let (g, seen, runs, looked) =
        wait_for_pod_running_sees e polls ns (id <> "-0") 300 h4 h5 (rw (← finished) p5) in
      (g, (seen, runs), (pure_ok _ q6).1 ∙ same6 ∙ looked)

  start_export_ok :
      (id : String) (a : Attributes) (h h' : History) {uids : String × String}
      → start_export e id a h ≡ (ok uids, h')
      → ((e.pvc h a.namespace a.claim).error ≡ none)
        × ((g : History) × IsSeenRunning e a.namespace (id <> "-0") g
            × (h' ≡ Call.get_pod a.namespace (id <> "-0") ∷ g))
  unfolding start_export
  start_export_ok id a h h' q =
      let (claim, h1, p1, q1) = bind_ok _ _ q in
      let (_, h2, p2, q2) = bind_ok _ _ q1 in
      let (_, h3, p3, q3) = bind_ok _ _ q2 in
      let (_, h4, p4, q4) = bind_ok _ _ q3 in
      let (failed, answered) = raise_failure_ok _ _ p2 in
      let (read, after) = call_ok _ _ p1 in
      let (g, seen, looked) = wait_for_export_ok id a.namespace h3 h4 p4 in
      (rw read at failed, (g, seen, (pure_ok _ q4).1 ∙ looked))

  -- If the polling loop does what its documentation says, a `NodePublishVolume` that succeeds has
  -- read the context, the data claim named there existed, and after the calls `g` of its run it
  -- looked at the pod that exports the volume and found it running; all calls before and after
  -- that look are those of `IsPublishCall`.
  pub publish_volume_established :
      (permissions : ℕ) (req : PublishRequest) (h h' : History)
      → publish_volume e permissions req h ≡ (ok tt, h')
      → (given : Capability) × (a : Attributes) × (g : History) × (req.capability ≡ some given)
        × (read_attributes req.context (start_attributes given.mount_flags req.readonly permissions)
            ≡ ok a)
        × ((e.pvc h a.namespace a.claim).error ≡ none)
        × IsSeenRunning e a.namespace (req.volume_id <> "-0") g
        × Extends (IsPublishCall req a) h (Call.get_pod a.namespace (req.volume_id <> "-0") ∷ g)
        × Extends (IsPublishCall req a) (Call.get_pod a.namespace (req.volume_id <> "-0") ∷ g) h'
  unfolding publish_volume
  publish_volume_established permissions req h h' q =
      let (a, h1, p1, q1) = bind_ok _ _ q in
      let (uids, h2, p2, q2) = bind_ok _ _ q1 in
      let (same, (given, has, read)) = check_publish_ok e permissions req h h1 p1 in
      let (claimed, (g, seen, looked)) = start_export_ok req.volume_id a h1 h2 p2 in
      let before : Extends (IsPublishCall req a) h1 h2 =
        subst (λ (r : Outcome (String × String) × History). Extends (IsPublishCall req a) h1 r.1) p2
          ((start_export-Does e polls req a).makes h1) in
      let after : Extends (IsPublishCall req a) h2 h' =
        subst (λ (r : Outcome (Unit {0}) × History). Extends (IsPublishCall req a) h2 r.1) q2
          ((finish_publish-Does e polls req a uids).makes h2) in
      (
        given,
        a,
        g,
        has,
        read,
        rw same at claimed,
        seen,
        subst
            (λ x.
              Extends (IsPublishCall req a) x
                (Call.get_pod a.namespace (req.volume_id <> "-0") ∷ g))
            same (subst (λ x. Extends (IsPublishCall req a) h1 x) looked before),
        subst (λ x. Extends (IsPublishCall req a) x h') looked after,
      )
