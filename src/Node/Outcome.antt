-- ===== src/Node/Outcome.antt =====
-- How `NodeUnpublishVolume` ends.
use csi_driver_nfs_export.Base.{
  String, true, false, ◌∷◌, ◌∙◌, Option, none, some, ◌==◌, ◌≡◌, refl, inl, inr, Bool-cases,
  Option-cases, if◌then◌else◌,
}
use csi_driver_nfs_export.Api.Objects.{Pv}
use csi_driver_nfs_export.Api.Calls.{Call, History}
use csi_driver_nfs_export.Api.Exec.{
  Outcome, ok, err, panic, result, invalid_argument, internal, id_missing, target_missing,
  unmount_failed, ◌>>=◌,
}
use csi_driver_nfs_export.Api.Client.{Env, PollsAsDocumented}
use csi_driver_nfs_export.Api.Rules.{EndsIn}
use csi_driver_nfs_export.Controller.Deleted.{find_pv-has_handle}
use csi_driver_nfs_export.Controller.Volume.{find_pv, get_pv_by_id}
use csi_driver_nfs_export.Node.Panics.{release_unused-Does}
use csi_driver_nfs_export.Node.Unpublish.{unpublish_volume}
use csi_driver_nfs_export.Node.Unpublished.{IsReleased, unpublish_decides, unpublish_panics}

-- The volume that the lookup finds; none also if the list fails.
abbrev pub found_volume : Env → String → String → History → Option Pv
found_volume e id target h =
    let listed = e.pvs (Call.cleanup_mount_point target true ∷ h) in
    elim listed.error [ none ↦ find_pv id listed.value | some _ ↦ none ]

-- Neither the pods, nor the deletions, nor the wait have a say.
abbrev pub unpublish_outcome : Env → String → String → History → Outcome (Unit {0})
unpublish_outcome e id target h =
    if id == ""
    then err invalid_argument id_missing
    else if target == ""
    then err invalid_argument target_missing
    else elim (e.cleaned_up h target true) [
      | some f ↦ err internal (unmount_failed target f)
      | none ↦ elim (found_volume e id target h) [
        | none ↦ ok tt
        | some pv ↦ elim pv.claim_ref [ none ↦ panic | some _ ↦ ok tt ]
      ]
    ]

ok_only : (o : Outcome (Unit {0})) → EndsIn (λ c. ⊥) o → o ≡ ok tt
ok_only (ok tt) p = refl
ok_only (err c r) p = absurd p
ok_only panic p = absurd p

module _ (e : Env) (polls : PollsAsDocumented e) (id target : String) where
  released_outcome :
      (pv : Pv) (h : History)
      → IsReleased e id target pv h
      → result (unpublish_volume e id target h)
        ≡ elim pv.claim_ref [ none ↦ panic | some _ ↦ ok tt ]
  released_outcome pv h released = elim (Option-cases pv.claim_ref) [
    | inl unbound ↦ rw (unbound, unpublish_panics e id target pv h released unbound) refl
    | inr (claim, bound) ↦
        let (_, _, _, _, found) = released in
        let (csi, has, _) = find_pv-has_handle id _ found in
        rw (bound, unpublish_decides e id target pv h released)
          (ok_only _ ((release_unused-Does e polls id pv claim csi bound has).ends _))
  ]

  looked_up :
      (h : History)
      → (id == "") ≡ false
      → (target == "") ≡ false
      → e.cleaned_up h target true ≡ none
      → result (unpublish_volume e id target h) ≡ unpublish_outcome e id target h
  unfolding unpublish_volume get_pv_by_id ◌>>=◌
  looked_up h named placed cleaned =
      let listed = e.pvs (Call.cleanup_mount_point target true ∷ h) in
      elim (Option-cases listed.error) [
        | inr (f, failed) ↦ rw (named, placed, cleaned, failed) refl
        | inl fine ↦ elim (Option-cases (find_pv id listed.value)) [
          | inl missing ↦ rw (named, placed, cleaned, fine, missing) refl
          | inr (pv, found) ↦
              released_outcome pv h (named, placed, cleaned, fine, found)
              ∙ rw (named, placed, cleaned, fine, found) refl
        ]
      ]

  -- If the polling loop does what its documentation says, `NodeUnpublishVolume` ends in every case as
  -- `unpublish_outcome` says: with InvalidArgument without an identifier or a target, with Internal if
  -- the target cannot be unmounted, with a panic if the volume that is found is bound to no claim, and
  -- else with a response, whatever the pods, the deletions and the wait come to.
  pub unpublish_volume_ends :
      (h : History) → result (unpublish_volume e id target h) ≡ unpublish_outcome e id target h
  unfolding unpublish_volume get_pv_by_id ◌>>=◌
  unpublish_volume_ends h = elim (Bool-cases (id == "")) [
    | inl p ↦ rw p refl
    | inr named ↦ elim (Bool-cases (target == "")) [
      | inl p ↦ rw (named, p) refl
      | inr placed ↦ elim (Option-cases (e.cleaned_up h target true)) [
        | inr (f, failed) ↦ rw (named, placed, failed) refl
        | inl cleaned ↦ looked_up h named placed cleaned
      ]
    ]
  ]
