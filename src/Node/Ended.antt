-- ===== src/Node/Ended.antt =====
-- The end of an export: `NodeUnpublishVolume` deletes what `NodePublishVolume` had created.
use csi_driver_nfs_export.Base.{
  String, ◌<>◌, ℕ, false, List, ◌∷◌, none, some, ◌==◌, ◌≡◌, ◌++◌, refl, sym, ◌∙◌, inl, inr, All,
  some_inj,
}
use csi_driver_nfs_export.Base.Entries.{Entries}
use csi_driver_nfs_export.Api.Objects.{Pv, CsiSource, ClaimRef, StatefulSet}
use csi_driver_nfs_export.Api.Calls.{Call, History}
use csi_driver_nfs_export.Api.Exec.{ok, calls, ◌>>=◌, ◌>>◌, pure}
use csi_driver_nfs_export.Api.Client.{Env, PollsAsDocumented, delete_service}
use csi_driver_nfs_export.Api.Rules.{Extends, same, more}
use csi_driver_nfs_export.Api.Makes.{Makes, Does-Makes, Makes-bind, Makes-call, Makes-pure}
use csi_driver_nfs_export.Pods.{wait_for_pod_running}
use csi_driver_nfs_export.Pods.Waiting.{wait_for_pod_running-Does}
use csi_driver_nfs_export.Controller.Volume.{Capability}
use csi_driver_nfs_export.Node.Attributes.{
  Attributes, start_attributes, read_attributes, read_backend,
}
use csi_driver_nfs_export.Node.Order.{AreApart}
use csi_driver_nfs_export.Node.Namespace.{ok_inj, IsNoNamespace, context_namespace}
use mathlib.Core.List.{Perm, Pairwise}
use csi_driver_nfs_export.Node.Publish.{PublishRequest, publish_volume}
use csi_driver_nfs_export.Node.Unpublish.{
  is_in_use, delete_export, release_unused, unpublish_volume,
}
use csi_driver_nfs_export.Node.Unpublished.{
  after_lookup, IsReleased, IsUsed, uses_claim_reads, unpublish_decides,
}
use csi_driver_nfs_export.Node.Exports.{Exports}
use csi_driver_nfs_export.Node.Store.{
  CreatesNothing, IsExportStore, Operation, perform_all, SparesVolume,
}
use csi_driver_nfs_export.Node.Lasting.{export_lasts}

module _ (e : Env) (polls : PollsAsDocumented e) (exports : History → Exports)
    (store : IsExportStore e exports) where
  Extends-misses :
      {h h' : History} (ns name : String)
      → Extends CreatesNothing h h'
      → exports h ns name ≡ none
      → exports h' ns name ≡ none
  Extends-misses ns name same gone = gone
  Extends-misses ns name (more {c} {h'} p rest) gone =
      store.absent h' c ns name p (Extends-misses ns name rest gone)

  after_deletion :
      (ns id : String)
      → Makes CreatesNothing
          (do delete_service e ns id; wait_for_pod_running e ns (id <> "-0") 300; pure tt)
  after_deletion ns id =
      let waits = Does-Makes (
        wait_for_pod_running-Does e polls {P = CreatesNothing} {Q = λ c. Unit} ns (id <> "-0") 300
          tt) in
      Makes-bind _ _ (Makes-call _ _ tt) λ _. Makes-bind _ _ waits λ _. Makes-pure tt

  delete_export_ends :
      (id ns : String) (attributes : Entries) (g : History)
      → (read_backend attributes (record { claim = ""; namespace = "" })).namespace ≡ ns
      → e.deleted_statefulset g ns id ≡ none
      → exports (calls (delete_export e id attributes g)) ns id ≡ none
  unfolding delete_export ◌>>=◌
  delete_export_ends id ns attributes g at gone = rw at (
      Extends-misses ns id ((after_deletion ns id).extends (Call.delete_statefulset ns id ∷ g))
        (store.deleted g ns id gone))

  unpublish_ends :
      (id target ns : String) (pv : Pv) (claim : ClaimRef) (csi : CsiSource) (h : History)
      → IsReleased e id target pv h
      → pv.claim_ref ≡ some claim
      → (claim.name == "") ≡ false
      → (claim.namespace == "") ≡ false
      → (IsUsed claim.name (e.pods (after_lookup target h) claim.namespace).value → ⊥)
      → pv.csi ≡ some csi
      → (read_backend csi.volume_attributes (record { claim = ""; namespace = "" })).namespace ≡ ns
      → e.deleted_statefulset (Call.list_pods claim.namespace ∷ after_lookup target h) ns id ≡ none
      → exports (calls (unpublish_volume e id target h)) ns id ≡ none
  unfolding release_unused is_in_use ◌>>=◌
  unpublish_ends id target ns pv claim csi h released bound named spaced unused has at gone =
      elim (uses_claim_reads claim.name (e.pods (after_lookup target h) claim.namespace).value) [
        | inl (_, used) ↦ absurd (unused used)
        | inr (q, _) ↦
            rw (unpublish_decides e id target pv h released, bound, named, spaced, q, has)
              (delete_export_ends id ns csi.volume_attributes
                (Call.list_pods claim.namespace ∷ after_lookup target h) at gone)
      ]

  -- On an API server where nobody else writes StatefulSets, and with a polling loop that does what
  -- its documentation says: the StatefulSet of a successful `NodePublishVolume` is there until its
  -- `NodeUnpublishVolume`, whatever operations lie between that spare the volume, and is gone after
  -- it, wherever the target can be unmounted, the volume is found and bound to a claim that no listed
  -- pod uses, and the deletion is accepted, whatever comes of the deletion of the Service and of the
  -- wait for the pod. The published context consists of the attributes of the volume and of further
  -- entries that do not name the data namespace, such as those on the pod, in any order, and no two of
  -- them set the same variable.
  pub export_ends :
      (permissions : ℕ) (req : PublishRequest) (given : Capability) (a : Attributes)
      (h h' : History) (ops : List Operation) (target : String) (pv : Pv) (claim : ClaimRef)
      (csi : CsiSource) (pod_info : Entries)
      → publish_volume e permissions req h ≡ (ok tt, h')
      → req.capability ≡ some given
      → read_attributes req.context (start_attributes given.mount_flags req.readonly permissions)
        ≡ ok a
      → All (SparesVolume req.volume_id) ops
      → IsReleased e req.volume_id target pv (perform_all e ops h')
      → pv.claim_ref ≡ some claim
      → (claim.name == "") ≡ false
      → (claim.namespace == "") ≡ false
      → (IsUsed claim.name
            (e.pods (after_lookup target (perform_all e ops h')) claim.namespace).value
          → ⊥)
      → pv.csi ≡ some csi
      → All IsNoNamespace pod_info
      → Perm req.context (pod_info ++ csi.volume_attributes)
      → Pairwise AreApart req.context
      → e.deleted_statefulset
          (Call.list_pods claim.namespace ∷ after_lookup target (perform_all e ops h'))
          a.namespace
          req.volume_id
        ≡ none
      → ((stored : StatefulSet) × (exports (perform_all e ops h') a.namespace req.volume_id
            ≡ some stored))
        × (exports
              (calls (unpublish_volume e req.volume_id target (perform_all e ops h')))
              a.namespace
              req.volume_id
            ≡ none)
  unfolding start_attributes
  export_ends permissions req given a h h' ops target pv claim csi pod_info published has read
        spared released bound named spaced unused attached other perm apart gone =
      let (given', a', stored, has', read', _, there) =
        export_lasts e polls exports store permissions req h h' ops published spared in
      let same_given : given' ≡ given = some_inj (sym has' ∙ has) in
      let same_attributes : a' ≡ a = ok_inj (sym (rw same_given at read') ∙ read) in
      (
        (stored, rw same_attributes at there),
        unpublish_ends req.volume_id target a.namespace pv claim csi (perform_all e ops h') released
            bound named spaced unused attached
            (context_namespace pod_info csi.volume_attributes req.context _ a other perm apart refl
              read)
            gone,
      )
