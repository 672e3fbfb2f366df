-- ===== src/Node/Unpublished.antt =====
-- What `NodeUnpublishVolume` deletes, and when.
use csi_driver_nfs_export.Base.{
  String, ◌<>◌, Bool, true, false, List, [], ◌∷◌, none, some, ◌==◌, ◌≡◌, ◌⊎◌, refl, sym, ◌∙◌, any,
  Some, Bool-cases, Option-cases, some_inj, differ, eq_iff, inl, inr, ap,
}
use csi_driver_nfs_export.Api.Objects.{Pod, PodVolume, Pv, CsiSource, ClaimRef, running}
use csi_driver_nfs_export.Api.Calls.{Call, History}
use csi_driver_nfs_export.Api.Exec.{Exec, Outcome, ok, err, panic, result, calls, pure, ◌>>=◌, ◌>>◌}
use csi_driver_nfs_export.Api.Client.{Env, PollsAsDocumented}
use csi_driver_nfs_export.Api.Rules.{Does, Does-bind, Does-pure, EndsIn, Extends}
use csi_driver_nfs_export.Controller.Volume.{find_pv, get_pv_by_id}
use csi_driver_nfs_export.Pods.{wait_for_pod_running}
use csi_driver_nfs_export.Pods.Waiting.{wait_for_pod_running_at_once, wait_for_pod_running-Does}
use csi_driver_nfs_export.Node.Attributes.{read_backend}
use csi_driver_nfs_export.Node.Unpublish.{
  is_claim_volume, uses_claim, is_in_use, delete_export, release_unused, unpublish_volume,
}

-- The calls before the decision to delete: the target is unmounted and the volume looked up.
abbrev pub after_lookup : String → History → History
after_lookup target h = Call.list_pvs ∷ Call.cleanup_mount_point target true ∷ h

-- The calls up to the deletion of the export in the namespace `ns`.
abbrev pub deletions : String → String → String → String → History → History
deletions id ns app_ns target h =
    Call.delete_service ns id
    ∷ Call.delete_statefulset ns id
    ∷ Call.list_pods app_ns
    ∷ after_lookup target h

-- The target was unmounted and the volume `pv` was found.
abbrev pub IsReleased : Env → String → String → Pv → History → Type 0
IsReleased e id target pv h =
    ((id == "") ≡ false)
    × ((target == "") ≡ false)
    × (e.cleaned_up h target true ≡ none)
    × ((e.pvs (Call.cleanup_mount_point target true ∷ h)).error ≡ none)
    × (find_pv id (e.pvs (Call.cleanup_mount_point target true ∷ h)).value ≡ some pv)

-- Some pod of the list has a volume that is the claim `claim`.
abbrev pub IsUsed : String → List Pod → Type 0
IsUsed claim pods =
    Some (λ (pod : Pod). Some (λ (v : PodVolume). v.claim_name ≡ some claim) pod.volumes) pods

module _ {A : Type 0} (p : A → Bool) (P : A → Type 0)
    (reads : (x : A) → ((p x ≡ true) × P x) ⊎ ((p x ≡ false) × (P x → ⊥))) where
  -- A test of the elements that reads a predicate finds whether some element satisfies it.
  any_reads :
      (xs : List A) → ((any p xs ≡ true) × Some P xs) ⊎ ((any p xs ≡ false) × (Some P xs → ⊥))
  unfolding any
  any_reads [] = inr (refl, λ no. no)
  any_reads (x ∷ xs) = elim (reads x) [
    | inl (q, holds) ↦ inl (rw q refl, inl holds)
    | inr (q, fails) ↦ elim (any_reads xs) [
      | inl (r, some_holds) ↦ inl (rw (q, r) refl, inr some_holds)
      | inr (r, all_fail) ↦
          inr (rw (q, r) refl, λ found. elim found [ inl x ↦ fails x | inr xs ↦ all_fail xs ])
    ]
  ]

is_claim_volume_reads :
    (claim : String) (v : PodVolume)
    → ((is_claim_volume claim v ≡ true) × (v.claim_name ≡ some claim))
      ⊎ ((is_claim_volume claim v ≡ false) × (v.claim_name ≡ some claim → ⊥))
unfolding is_claim_volume
is_claim_volume_reads claim v = elim (Option-cases v.claim_name) [
  | inl bare ↦ inr (rw (bare, is_claim_volume) refl, rw bare (λ wrong. cc))
  | inr (name, has) ↦ elim (Bool-cases (name == claim)) [
    | inl q ↦ inl (rw (has, q, is_claim_volume) refl, has ∙ ap some ((eq_iff _ _).0 q))
    | inr q ↦ inr (
      rw (has, q, is_claim_volume) refl,
      λ is. differ (sym q ∙ (eq_iff name claim).1 (some_inj (sym has ∙ is))),
    )
  ]
]

pub uses_claim_reads :
    (claim : String) (pods : List Pod)
    → ((uses_claim claim pods ≡ true) × IsUsed claim pods)
      ⊎ ((uses_claim claim pods ≡ false) × (IsUsed claim pods → ⊥))
unfolding uses_claim
uses_claim_reads claim pods =
    any_reads _ _ (λ pod. any_reads _ _ (is_claim_volume_reads claim) pod.volumes) pods

-- What is left to do when the export has been asked to be deleted.
abbrev after_deletions : Env → String → String → Exec (Unit {0})
after_deletions e ns id = wait_for_pod_running e ns (id <> "-0") 300 >> pure tt

-- Looks at one pod.
abbrev pub IsLookAt : String → String → Call → Type 0
IsLookAt ns name c = c ≡ Call.get_pod ns name

after_deletions-Does :
    (e : Env)
    → PollsAsDocumented e
    → (ns id : String) → Does (IsLookAt ns (id <> "-0")) (λ _. ⊥) (after_deletions e ns id)
after_deletions-Does e polls ns id =
    Does-bind _ _ (wait_for_pod_running-Does e polls ns (id <> "-0") 300 refl) λ _. Does-pure tt

succeeds : (o : Outcome (Unit {0})) → EndsIn (λ _. ⊥) o → o ≡ ok tt
succeeds (ok u) ends = refl
succeeds (err c r) ends = absurd ends
succeeds panic ends = absurd ends

module _ (e : Env) (id target : String) (pv : Pv) (h : History) where
  pub unpublish_decides :
      IsReleased e id target pv h
      → unpublish_volume e id target h ≡ release_unused e id pv (after_lookup target h)
  unfolding unpublish_volume get_pv_by_id ◌>>=◌
  unpublish_decides (named, placed, cleaned, listed, found) =
      rw (named, placed, cleaned, listed, found)

  -- When the target was unmounted and the volume found, its claim reference names a claim and a
  -- namespace, and some pod that the API server lists in that namespace has a volume that is this
  -- claim, `NodeUnpublishVolume` succeeds and asks for no deletion: after the lookup it has only
  -- listed the pods. It does not matter whether the list came with an error.
  pub unpublish_keeps_used :
      (claim : ClaimRef)
      → IsReleased e id target pv h
      → pv.claim_ref ≡ some claim
      → (claim.name == "") ≡ false
      → (claim.namespace == "") ≡ false
      → IsUsed claim.name (e.pods (after_lookup target h) claim.namespace).value
      → unpublish_volume e id target h
        ≡ (ok tt, Call.list_pods claim.namespace ∷ after_lookup target h)
  unfolding release_unused is_in_use ◌>>=◌
  unpublish_keeps_used claim released bound named spaced used =
      elim (uses_claim_reads claim.name (e.pods (after_lookup target h) claim.namespace).value) [
        | inl (q, _) ↦ rw (unpublish_decides released, bound, named, spaced, q)
        | inr (_, unused) ↦ absurd (unused used)
      ]

  -- When the target was unmounted and the volume found, and the volume is bound to no claim, the
  -- handler panics on the nil reference.
  pub unpublish_panics :
      IsReleased e id target pv h
      → pv.claim_ref ≡ none
      → unpublish_volume e id target h ≡ (panic, after_lookup target h)
  unfolding release_unused ◌>>=◌
  unpublish_panics released unbound = rw (unpublish_decides released, unbound)

  unpublish_deletes :
      (claim : ClaimRef) (csi : CsiSource) (ns : String)
      → IsReleased e id target pv h
      → pv.claim_ref ≡ some claim
      → (claim.name == "") ≡ false
      → (claim.namespace == "") ≡ false
      → (IsUsed claim.name (e.pods (after_lookup target h) claim.namespace).value → ⊥)
      → pv.csi ≡ some csi
      → (read_backend csi.volume_attributes (record { claim = ""; namespace = "" })).namespace ≡ ns
      → unpublish_volume e id target h
        ≡ after_deletions e ns id (deletions id ns claim.namespace target h)
  unfolding release_unused is_in_use delete_export ◌>>=◌
  unpublish_deletes claim csi ns released bound named spaced unused has at =
      elim (uses_claim_reads claim.name (e.pods (after_lookup target h) claim.namespace).value) [
        | inl (_, used) ↦ absurd (unused used)
        | inr (q, _) ↦ rw (unpublish_decides released, bound, named, spaced, q, has, at)
      ]

  seen_once :
      PollsAsDocumented e
      → (ns : String) (g : History) → (e.pod g ns (id <> "-0")).error ≡ none
      → (e.pod g ns (id <> "-0")).value.phase ≡ running
      → calls (after_deletions e ns id g) ≡ Call.get_pod ns (id <> "-0") ∷ g
  unfolding ◌>>=◌
  seen_once polls ns g found runs =
      rw (wait_for_pod_running_at_once e polls ns (id <> "-0") 300 g found runs) refl

  -- When the polling loop does what its documentation says, the target was unmounted and the volume
  -- found, it has a CSI source whose attributes are read with the namespace `ns`, its claim reference
  -- names a claim and a namespace, and no pod that the API server lists in that namespace has a volume
  -- that is this claim, then `NodeUnpublishVolume` succeeds. It has asked to delete first the
  -- StatefulSet, then the Service, each with the volume's identifier as its name and in `ns`, whatever
  -- came of either; and after that it has only looked at the export's pod, whatever it found: once if
  -- that pod was still running at the first look, so that the wait, which is for a pod that runs, waits
  -- for nothing. A list that fails and is empty counts as one without such a pod.
  pub unpublish_deletes_unused :
      PollsAsDocumented e
      → (claim : ClaimRef) (csi : CsiSource) (ns : String) → IsReleased e id target pv h
      → pv.claim_ref ≡ some claim
      → (claim.name == "") ≡ false
      → (claim.namespace == "") ≡ false
      → (IsUsed claim.name (e.pods (after_lookup target h) claim.namespace).value → ⊥)
      → pv.csi ≡ some csi
      → (read_backend csi.volume_attributes (record { claim = ""; namespace = "" })).namespace ≡ ns
      → (result (unpublish_volume e id target h) ≡ ok tt)
        × Extends
            (IsLookAt ns (id <> "-0"))
            (deletions id ns claim.namespace target h)
            (calls (unpublish_volume e id target h))
        × ((e.pod (deletions id ns claim.namespace target h) ns (id <> "-0")).error ≡ none
            → (e.pod (deletions id ns claim.namespace target h) ns (id <> "-0")).value.phase
              ≡ running
            → calls (unpublish_volume e id target h)
              ≡ Call.get_pod ns (id <> "-0") ∷ deletions id ns claim.namespace target h)
  unpublish_deletes_unused polls claim csi ns released bound named spaced unused has at =
      let g = deletions id ns claim.namespace target h in
      let d = after_deletions-Does e polls ns id in
      rw (unpublish_deletes claim csi ns released bound named spaced unused has at)
        (succeeds _ (d.ends g), d.makes g, seen_once polls ns g)
