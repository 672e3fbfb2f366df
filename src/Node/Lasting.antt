-- ===== src/Node/Lasting.antt =====
-- Sequences of the driver's operations, on any nodes: how long an export lasts.
use csi_driver_nfs_export.Base.{
  String, ◌<>◌, ℕ, List, [], ◌∷◌, Option, some, ◌≡◌, ◌∙◌, inl, inr, All, Option-cases, ap, sym,
}
use mathlib.Core.Path.{subst}
use csi_driver_nfs_export.Api.Objects.{StatefulSet, Failure}
use csi_driver_nfs_export.Api.Calls.{Call, History}
use csi_driver_nfs_export.Api.Exec.{Code, Reason, err, Outcome, ok, ◌>>=◌}
use csi_driver_nfs_export.Api.Client.{Env, PollsAsDocumented}
use csi_driver_nfs_export.Api.Rules.{
  Extends, same, more, bind_ok, call_ok, raise_failure_ok, pure_ok,
}
use csi_driver_nfs_export.Api.Makes.{Extends-mono}
use csi_driver_nfs_export.Controller.Volume.{Capability}
use csi_driver_nfs_export.Node.Attributes.{Attributes, start_attributes, read_attributes}
use csi_driver_nfs_export.Node.Publish.{
  PublishRequest, publish_volume, start_export, wait_for_export, ensure_statefulset,
}
use csi_driver_nfs_export.Node.Export.{statefulset_def}
use csi_driver_nfs_export.Node.Established.{check_publish_ok}
use csi_driver_nfs_export.Node.Published.{IsPublishCall, finish_publish-Does}
use csi_driver_nfs_export.Pods.Waiting.{wait_for_pod_running-Does}
use csi_driver_nfs_export.Node.Store.{
  IsExportStore, Operation, create, delete, publish, unpublish, stats, perform, perform_all,
  SparesVolume,
}
use csi_driver_nfs_export.Node.Exports.{
  Exports, KeepsExport, publish_call-KeepsExport, create_volume-Makes, delete_volume-Makes,
  publish_volume-Makes, unpublish_volume-Makes, volume_stats-Makes,
}

refused :
    {A : Type 0} {c : Code} {r : Reason} {a : A} {h h' : History}
    → ◌≡◌ {A = Outcome A × History} (err c r, h) (ok a, h')
    → ⊥
refused q = cc

module _ (e : Env) (polls : PollsAsDocumented e) (exports : History → Exports)
    (store : IsExportStore e exports) where
  Extends-keeps :
      {name : String} {h h' : History}
      → Extends (KeepsExport name) h h'
      → (ns : String) (def : StatefulSet) → exports h ns name ≡ some def
      → exports h' ns name ≡ some def
  Extends-keeps same ns def there = there
  Extends-keeps {name} (more {c} {h'} p rest) ns def there =
      store.kept h' c ns name def p (Extends-keeps rest ns def there)

  perform-Extends :
      (name : String) (op : Operation) (h : History)
      → SparesVolume name op
      → Extends (KeepsExport name) h (perform e op h)
  unfolding perform
  perform-Extends name (create req) h p = (create_volume-Makes e name req).extends h
  perform-Extends name (delete id) h p = (delete_volume-Makes e name id).extends h
  perform-Extends name (publish permissions req) h p =
      (publish_volume-Makes e name polls permissions req).extends h
  perform-Extends name (unpublish id target) h p =
      (unpublish_volume-Makes e name polls id target p).extends h
  perform-Extends name (stats id path) h p = (volume_stats-Makes e name id path).extends h

  perform_all_keeps :
      (ops : List Operation) (ns name : String) (h : History) (def : StatefulSet)
      → All (SparesVolume name) ops
      → exports h ns name ≡ some def
      → exports (perform_all e ops h) ns name ≡ some def
  unfolding perform_all
  perform_all_keeps [] ns name h def spared there = there
  perform_all_keeps (op ∷ ops) ns name h def spared there =
      perform_all_keeps ops ns name (perform e op h) def spared.1
        (Extends-keeps (perform-Extends name op h spared.0) ns def there)

  ensure_leaves :
      (ns : String) (def : StatefulSet) (h h' : History) {u : Unit {0}}
      → ensure_statefulset e ns def h ≡ (ok u, h')
      → (stored : StatefulSet) × (exports h' ns def.name ≡ some stored)
  unfolding ensure_statefulset ◌>>=◌
  ensure_leaves ns def h h' q = elim (Option-cases (e.statefulset h ns def.name).error) [
    | inl there ↦
        let (stored, found) = store.found h ns def.name there in
        let after : h' ≡ Call.get_statefulset ns def.name ∷ h = cc in
        (
          stored,
          rw after (store.kept h (Call.get_statefulset ns def.name) ns def.name stored tt found),
        )
    | inr (f, absent) ↦
        elim (Option-cases
          (e.created_statefulset (Call.get_statefulset ns def.name ∷ h) ns def).error) [
            | inl accepted ↦
                let (stored, made) =
                  store.created (Call.get_statefulset ns def.name ∷ h) ns def accepted in
                let after =
                  ap (λ (r : Outcome (Unit {0}) × History). r.1) (rw (absent, accepted) at q) in
                (stored, subst (λ (g : History). exports g ns def.name ≡ some stored) after made)
            | inr (f', failed) ↦ absurd (refused (rw (absent, failed) at q))
          ]
  ]

  wait_leaves :
      (id ns : String) (h h' : History) {uid : String} (stored : StatefulSet)
      → exports h ns id ≡ some stored
      → wait_for_export e id ns h ≡ (ok uid, h')
      → exports h' ns id ≡ some stored
  unfolding wait_for_export
  wait_leaves id ns h h' stored made q =
      let (_, h4, p4, q4) = bind_ok _ _ q in
      let (waited, h5, p5, q5) = bind_ok _ _ q4 in
      let (_, h6, p6, q6) = bind_ok _ _ q5 in
      let extended : Extends (KeepsExport id) h4 h5 =
        subst (λ (r : Outcome (Option Failure) × History). Extends (KeepsExport id) h4 r.1) p5
          ((wait_for_pod_running-Does e polls {Q = λ c. Unit} ns (id <> "-0") 300 tt).makes h4) in
      let looked = store.kept h (Call.get_pod ns (id <> "-0")) ns id stored tt made in
      let waited' = Extends-keeps extended ns stored (rw (call_ok _ _ p4).1 looked) in
      subst (λ (g : History). exports g ns id ≡ some stored)
        (sym ((pure_ok _ q6).1 ∙ (raise_failure_ok _ _ p6).1)) waited'

  start_leaves :
      (id : String) (a : Attributes) (h h' : History) {uids : String × String}
      → start_export e id a h ≡ (ok uids, h')
      → (stored : StatefulSet) × (exports h' a.namespace id ≡ some stored)
  unfolding start_export statefulset_def
  start_leaves id a h h' q =
      let (claim, h1, p1, q1) = bind_ok _ _ q in
      let (_, h2, p2, q2) = bind_ok _ _ q1 in
      let (_, h3, p3, q3) = bind_ok _ _ q2 in
      let (_, h4, p4, q4) = bind_ok _ _ q3 in
      let (stored, made) = ensure_leaves a.namespace _ h2 h3 p3 in
      (
        stored,
        subst (λ (g : History). exports g a.namespace id ≡ some stored) (sym (pure_ok _ q4).1)
            (wait_leaves id a.namespace h3 h4 stored made p4),
      )

  publish_leaves :
      (permissions : ℕ) (req : PublishRequest) (h h' : History)
      → publish_volume e permissions req h ≡ (ok tt, h')
      → (given : Capability) × (a : Attributes) × (stored : StatefulSet) × (req.capability
          ≡ some given)
        × (read_attributes req.context (start_attributes given.mount_flags req.readonly permissions)
            ≡ ok a)
        × (exports h' a.namespace req.volume_id ≡ some stored)
  unfolding publish_volume
  publish_leaves permissions req h h' q =
      let (a, h1, p1, q1) = bind_ok _ _ q in
      let (uids, h2, p2, q2) = bind_ok _ _ q1 in
      let (_, (given, has, read)) = check_publish_ok e permissions req h h1 p1 in
      let (stored, made) = start_leaves req.volume_id a h1 h2 p2 in
      let after : Extends (IsPublishCall req a) h2 h' =
        subst (λ (r : Outcome (Unit {0}) × History). Extends (IsPublishCall req a) h2 r.1) q2
          ((finish_publish-Does e polls req a uids).makes h2) in
      (
        given,
        a,
        stored,
        has,
        read,
        Extends-keeps (Extends-mono (publish_call-KeepsExport req.volume_id req a) after)
            a.namespace stored made,
      )

  -- On an API server where nobody else writes StatefulSets: what a successful `NodePublishVolume` has
  -- had to run, the StatefulSet named after the volume in the backend's namespace, stays there
  -- through any sequence of the driver's operations on any volumes and nodes, failed ones included,
  -- as long as none of them is a `NodeUnpublishVolume` of that volume, and is the one that was there
  -- when the publication ended.
  pub export_lasts :
      (permissions : ℕ) (req : PublishRequest) (h h' : History) (ops : List Operation)
      → publish_volume e permissions req h ≡ (ok tt, h')
      → All (SparesVolume req.volume_id) ops
      → (given : Capability) × (a : Attributes) × (stored : StatefulSet) × (req.capability
          ≡ some given)
        × (read_attributes req.context (start_attributes given.mount_flags req.readonly permissions)
            ≡ ok a)
        × (exports h' a.namespace req.volume_id ≡ some stored)
        × (exports (perform_all e ops h') a.namespace req.volume_id ≡ some stored)
  export_lasts permissions req h h' ops q spared =
      let (given, a, stored, has, read, there) = publish_leaves permissions req h h' q in
      (
        given,
        a,
        stored,
        has,
        read,
        there,
        perform_all_keeps ops a.namespace req.volume_id h' stored spared there,
      )
