-- ===== src/Node/Panics.antt =====
-- When `NodeUnpublishVolume` panics, and that it does not fail once the volume was looked up.
use csi_driver_nfs_export.Base.{
  String, ◌<>◌, true, List, none, some, ◌==◌, ◌≡◌, ◌≢◌, inl, inr, ◌∷◌, Bool-cases, Option-cases,
}
use mathlib.Core.Path.{subst}
use csi_driver_nfs_export.Base.Entries.{Entries}
use csi_driver_nfs_export.Api.Objects.{Pv, CsiSource, ClaimRef}
use csi_driver_nfs_export.Api.Calls.{Call, History}
use csi_driver_nfs_export.Api.Exec.{Code, panic, Exec, result, ◌>>=◌, on_option}
use csi_driver_nfs_export.Api.Client.{Env, PollsAsDocumented}
use csi_driver_nfs_export.Api.Rules.{EndsIn, Does, Does-bind, Does-if, Does-pure, does_rules}
use csi_driver_nfs_export.Controller.Volume.{find_pv, get_pv_by_id}
use csi_driver_nfs_export.Controller.Deleted.{find_pv-has_handle}
use csi_driver_nfs_export.Pods.Waiting.{wait_for_pod_running-Does}
use csi_driver_nfs_export.Node.Unpublish.{
  is_in_use, delete_export, release_unused, unpublish_volume,
}
use csi_driver_nfs_export.Node.Unpublished.{
  after_lookup, IsReleased, unpublish_decides, unpublish_panics,
}

-- Any call and any status; no panic.
abbrev pub DoesNotPanic : {A : Type 0} → Exec A → Type 0
DoesNotPanic m = Does (λ c. Unit) (λ c. Unit) m

-- Any call, and a response.
abbrev pub Succeeds : {A : Type 0} → Exec A → Type 0
Succeeds m = Does (λ c. Unit) (λ c. ⊥) m

pub ends_without :
    {P : Call → Type 0} {Q : Code → Type 0} {A : Type 0} {m : Exec A} {h : History}
    → Does P Q m
    → result (m h) ≢ panic
ends_without {Q} {m} {h} d q = subst (λ o. EndsIn Q o) q (d.ends h)

module _ (e : Env) (polls : PollsAsDocumented e) (id : String) where
  delete_export-Does : (attributes : Entries) → Succeeds (delete_export e id attributes)
  unfolding delete_export
  delete_export-Does attributes = Does-bind _ _ (search does_rules) λ _.
      Does-bind _ _ (search does_rules) λ _.
        Does-bind _ _ (wait_for_pod_running-Does e polls _ (id <> "-0") 300 tt) λ _. Does-pure tt

  is_in_use-Does : (claim ns : String) → Succeeds (is_in_use e claim ns)
  unfolding is_in_use
  is_in_use-Does claim ns = search does_rules depth 8

  pub release_unused-Does :
      (pv : Pv) (claim : ClaimRef) (csi : CsiSource)
      → pv.claim_ref ≡ some claim
      → pv.csi ≡ some csi
      → Succeeds (release_unused e id pv)
  unfolding release_unused on_option
  release_unused-Does pv claim csi bound has =
      rw (bound, has)
        (Does-bind (is_in_use e claim.name claim.namespace) _
          (is_in_use-Does claim.name claim.namespace)
          λ used.
            Does-if used _ _ (λ _. Does-pure tt) λ _. delete_export-Does csi.volume_attributes)

  release_unused_panics :
      (pv : Pv) (pvs : List Pv) (h : History)
      → find_pv id pvs ≡ some pv
      → result (release_unused e id pv h) ≡ panic
      → pv.claim_ref ≡ none
  release_unused_panics pv pvs h found panics = elim (Option-cases pv.claim_ref) [
    | inl unbound ↦ unbound
    | inr (claim, bound) ↦
        let (csi, has, _) = find_pv-has_handle id pvs found in
        absurd (ends_without (release_unused-Does pv claim csi bound has) panics)
  ]

  panics_only :
      (target : String) (h : History)
      → result (unpublish_volume e id target h) ≡ panic
      → (pv : Pv) × IsReleased e id target pv h × (pv.claim_ref ≡ none)
  unfolding unpublish_volume get_pv_by_id ◌>>=◌
  panics_only target h panics = elim (Bool-cases (id == "")) [
    | inl p ↦ let wrong = rw p at panics in cc
    | inr named ↦ elim (Bool-cases (target == "")) [
      | inl p ↦ let wrong = rw (named, p) at panics in cc
      | inr placed ↦ elim (Option-cases (e.cleaned_up h target true)) [
        | inr (f, failed) ↦ let wrong = rw (named, placed, failed) at panics in cc
        | inl cleaned ↦
            elim (Option-cases (e.pvs (Call.cleanup_mount_point target true ∷ h)).error) [
              | inr (f, failed) ↦ let wrong = rw (named, placed, cleaned, failed) at panics in cc
              | inl listed ↦
                  elim (Option-cases
                    (find_pv id (e.pvs (Call.cleanup_mount_point target true ∷ h)).value)) [
                      | inl none_found ↦
                          let wrong = rw (named, placed, cleaned, listed, none_found) at panics in
                          cc
                      | inr (pv, found) ↦
                          let released : IsReleased e id target pv h =
                            (named, placed, cleaned, listed, found) in
                          (
                            pv,
                            released,
                            release_unused_panics pv
                                (e.pvs (Call.cleanup_mount_point target true ∷ h)).value _ found
                                (rw (unpublish_decides e id target pv h released) at panics),
                          )
                    ]
            ]
      ]
    ]
  ]

  -- If the polling loop does what its documentation says, `NodeUnpublishVolume` panics exactly if its
  -- arguments are given, the target was unmounted, the volume was found, and it is bound to no claim;
  -- it has then made no call behind the lookup.
  pub unpublish_panics_exactly :
      (target : String) (h : History)
      → (result (unpublish_volume e id target h) ≡ panic
          → (pv : Pv) × IsReleased e id target pv h × (pv.claim_ref ≡ none))
        × ((pv : Pv)
            → IsReleased e id target pv h
            → pv.claim_ref ≡ none
            → unpublish_volume e id target h ≡ (panic, after_lookup target h))
  unpublish_panics_exactly target h = (
    panics_only target h,
    λ pv released unbound. unpublish_panics e id target pv h released unbound,
  )
