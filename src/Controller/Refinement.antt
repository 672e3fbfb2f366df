-- ===== src/Controller/Refinement.antt =====
-- `CreateVolume` against a specification on the stored claims.
use csi_driver_nfs_export.Base.{
  String, [], ◌∷◌, none, some, ◌==◌, ◌≡◌, refl, inl, inr, Bool-cases, Option-cases,
}
use csi_driver_nfs_export.Api.Objects.{Pvc}
use csi_driver_nfs_export.Api.Calls.{Call, History}
use csi_driver_nfs_export.Api.Exec.{
  Code, Reason, Outcome, ok, err, panic, ◌>>=◌, ◌>>◌, pure, result, calls, continue,
}
use csi_driver_nfs_export.Api.Client.{Env}
use csi_driver_nfs_export.Controller.Parameters.{
  Parameters, no_parameters, set_parameter, read_parameters,
}
use csi_driver_nfs_export.Base.Entries.{Entries}
use csi_driver_nfs_export.Params.{key_of}
use csi_driver_nfs_export.Controller.Volume.{
  CreateRequest, Volume, are_valid_capabilities, volume_id_of, data_pvc_def, ensure_data_pvc,
  provision, create_volume,
}
use csi_driver_nfs_export.Controller.Created.{
  volume_of, chosen_class, after_choice, choose_class_lem,
}
use csi_driver_nfs_export.Controller.Store.{Claims, put_claim, IsClaimStore}

-- The claim of a new volume, as it is stored.
abbrev pub stored_claim : CreateRequest → String → String → Pvc
stored_claim req class uid =
    record (data_pvc_def (volume_id_of req.name) class req.required_bytes) { uid = uid }

-- What a CreateVolume may do: refuse and change nothing; confirm a volume whose claim is there; or
-- add the one claim of the volume, of the requested size, where there was none.
pub data Creation (req : CreateRequest) (before : Claims) : Outcome Volume → Claims → Type 0 where
  refused : (c : Code) (r : Reason) → Creation req before (err c r) before
  confirmed :
      (p : Parameters) (claim : Pvc)
      → read_parameters req.parameters no_parameters ≡ ok p
      → before p.claim_namespace (volume_id_of req.name) ≡ some claim
      → Creation req before (ok (volume_of req p)) before
  added :
      (p : Parameters) (class uid : String)
      → read_parameters req.parameters no_parameters ≡ ok p
      → before p.claim_namespace (volume_id_of req.name) ≡ none
      → Creation req before
          (ok (volume_of req p))
          (put_claim p.claim_namespace (volume_id_of req.name) (stored_claim req class uid) before)

stopped : {A : Type 0} {c : Code} {r : Reason} → ◌≡◌ {A = Outcome A} (err c r) panic → ⊥
stopped q = cc

read_parameters_total : (m : Entries) (p : Parameters) → read_parameters m p ≡ panic → ⊥
unfolding read_parameters
read_parameters_total [] p q = cc
read_parameters_total ((k, v) ∷ m) p q = elim (Option-cases (set_parameter (key_of k) v p)) [
  | inl bad ↦ stopped (rw (bad, read_parameters) at q)
  | inr (p', set) ↦ read_parameters_total m p' (rw (set, read_parameters) at q)
]

module _ (e : Env) (claims : History → Claims) (store : IsClaimStore e claims)
    (req : CreateRequest) where
  abbrev IsCreation : Claims → Outcome Volume × History → Type 0
  IsCreation before r = Creation req before r.0 (claims r.1)

  ensure_refines :
      (p : Parameters) (class : String) (h : History)
      → read_parameters req.parameters no_parameters ≡ ok p
      → IsCreation (claims h) (
          (ensure_data_pvc e p.claim_namespace
                (data_pvc_def (volume_id_of req.name) class req.required_bytes)
              >> pure (volume_of req p))
            h)
  unfolding ensure_data_pvc data_pvc_def ◌>>=◌
  ensure_refines p class h read =
      elim (Option-cases (claims h p.claim_namespace (volume_id_of req.name))) [
        | inr (claim, there) ↦
            let found = store.found h p.claim_namespace (volume_id_of req.name) claim there in
            rw (found, store.kept h (Call.get_pvc p.claim_namespace (volume_id_of req.name)) refl)
              (confirmed p claim read there)
        | inl free ↦
            let (f, absent) = store.missing h p.claim_namespace (volume_id_of req.name) free in
            let g : History = Call.get_pvc p.claim_namespace (volume_id_of req.name) ∷ h in
            let same : claims g ≡ claims h =
              store.kept h (Call.get_pvc p.claim_namespace (volume_id_of req.name)) refl in
            let def = data_pvc_def (volume_id_of req.name) class req.required_bytes in
            elim (Option-cases (e.created_pvc g p.claim_namespace def).error) [
              | inl accepted ↦
                  let (uid, stored) =
                    store.created g p.claim_namespace def (rw same free) accepted in
                  rw (absent, accepted, stored, same) (added p class uid read free)
              | inr (f', failed) ↦
                  rw (absent, failed, store.uncreated g p.claim_namespace def f' failed, same)
                    (refused _ _)
            ]
      ]

  pub after_choice_kept : (sc : String) (h : History) → claims (after_choice sc h) ≡ claims h
  after_choice_kept sc h = elim (Bool-cases (sc == "")) [
    | inl q ↦ rw q (store.kept h Call.list_storage_classes refl)
    | inr q ↦ rw q refl
  ]

  provision_refines :
      (o : Outcome Parameters) (h : History)
      → read_parameters req.parameters no_parameters ≡ o
      → IsCreation (claims h) (continue o (provision e req.name req.required_bytes) h)
  unfolding provision ◌>>=◌
  provision_refines (ok p) h read =
      rw (choose_class_lem e p.data_sc h, ← after_choice_kept p.data_sc h)
        (ensure_refines p (chosen_class e p.data_sc h) (after_choice p.data_sc h) read)
  provision_refines (err c r) h read = refused c r
  provision_refines panic h read = absurd (read_parameters_total req.parameters no_parameters read)

  -- On a claim store that nobody else writes, every `CreateVolume` is a step of the specification
  -- `Creation`, on every branch: it refuses and changes no claim, or confirms the volume of a claim that
  -- is there, or adds that one claim.
  pub create_volume_refines :
      (h : History)
      → Creation req
          (claims h)
          (result (create_volume e req h))
          (claims (calls (create_volume e req h)))
  unfolding create_volume ◌>>=◌
  create_volume_refines h = elim (Bool-cases (req.name == "")) [
    | inl empty ↦ rw empty (refused _ _)
    | inr named ↦ elim (Bool-cases (are_valid_capabilities req.capabilities)) [
      | inr missing ↦ rw (named, missing) (refused _ _)
      | inl given ↦ rw (named, given) (provision_refines _ h refl)
    ]
  ]
