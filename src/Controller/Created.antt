-- ===== src/Controller/Created.antt =====
-- What a successful `CreateVolume` has achieved, and its repetition.
use csi_driver_nfs_export.Base.{
  String, pos, true, false, ◌∷◌, none, some, ◌==◌, ◌≡◌, refl, if◌then◌else◌, arith, inl, inr, ◌⊎◌,
  Bool-cases,
}
use csi_driver_nfs_export.Api.Objects.{Pvc}
use csi_driver_nfs_export.Api.Calls.{Call, History}
use csi_driver_nfs_export.Api.Exec.{
  Code, Reason, pure, ◌>>◌, Outcome, ok, err, panic, result, continue, ◌>>=◌,
}
use csi_driver_nfs_export.Api.Client.{Env}
use csi_driver_nfs_export.Params.{default_image}
use csi_driver_nfs_export.Controller.Parameters.{Parameters, no_parameters, read_parameters}
use csi_driver_nfs_export.Controller.Volume.{
  CreateRequest, Volume, are_valid_capabilities, volume_id_of, data_pvc_def, volume_context_of,
  choose_class, find_default_class, ensure_data_pvc, provision, create_volume,
}

-- The claim was there when it was looked up, or the API server accepted its creation.
abbrev pub IsEnsured : Env → String → Pvc → History → Type 0
IsEnsured e ns def h =
    ((e.pvc h ns def.name).error ≡ none)
    ⊎ ((e.created_pvc (Call.get_pvc ns def.name ∷ h) ns def).error ≡ none)

abbrev pub volume_of : CreateRequest → Parameters → Volume
volume_of req p =
    let id = volume_id_of req.name in
    record {
      volume_id = id;
      capacity_bytes = pos 0;
      volume_context =
          volume_context_of id p.claim_namespace
            (if p.server_image == "" then default_image else p.server_image) p.hosts_allow;
    }

refused : {A : Type 0} {c : Code} {r : Reason} {a : A} → err c r ≡ ok a → ⊥
refused h = cc

-- The storage class of the data claim, and the calls up to its choice.
abbrev pub chosen_class : Env → String → History → String
chosen_class e sc h =
    if sc == ""
    then elim (e.storage_classes h).error [
      | none ↦ find_default_class (e.storage_classes h).value
      | some _ ↦ ""
    ]
    else sc

abbrev pub after_choice : String → History → History
after_choice sc h = if sc == "" then Call.list_storage_classes ∷ h else h

pub choose_class_lem :
    (e : Env) (sc : String) (h : History)
    → choose_class e sc h ≡ (ok (chosen_class e sc h), after_choice sc h)
unfolding choose_class ◌>>=◌
choose_class_lem e sc h = elim (Bool-cases (sc == "")) [ inl q ↦ rw q | inr q ↦ rw q ]

IsEnsured-then :
    (e : Env) (ns : String) (def : Pvc) (v : Volume) (h : History) {vol : Volume}
    → result ((ensure_data_pvc e ns def >> pure v) h) ≡ ok vol
    → (vol ≡ v) × IsEnsured e ns def h
unfolding ensure_data_pvc ◌>>=◌
IsEnsured-then e ns def v h q = ground arith

provision_ok :
    (e : Env) (req : CreateRequest) (p : Parameters) (h : History) {vol : Volume}
    → result (provision e req.name req.required_bytes p h) ≡ ok vol
    → (vol ≡ volume_of req p)
      × IsEnsured e p.claim_namespace
          (data_pvc_def (volume_id_of req.name) (chosen_class e p.data_sc h) req.required_bytes)
          (after_choice p.data_sc h)
unfolding provision ◌>>=◌
provision_ok e req p h q =
    IsEnsured-then e _ _ _ (after_choice p.data_sc h) (rw choose_class_lem at q)

read_then_ok :
    (e : Env) (req : CreateRequest) (o : Outcome Parameters) (h : History) {vol : Volume}
    → result (continue o (provision e req.name req.required_bytes) h) ≡ ok vol
    → (p : Parameters) × (o ≡ ok p)
      × (vol ≡ volume_of req p)
      × IsEnsured e p.claim_namespace
          (data_pvc_def (volume_id_of req.name) (chosen_class e p.data_sc h) req.required_bytes)
          (after_choice p.data_sc h)
read_then_ok e req (ok p) h q = let r = provision_ok e req p h q in (p, refl, r.0, r.1)
read_then_ok e req (err c r) h q = cc
read_then_ok e req panic h q = cc

-- A successful `CreateVolume` has read all parameters, answers with the volume that they describe,
-- and the data claim with the volume's identifier as its name, the requested size and the chosen
-- storage class was found or has been accepted by the API server.
pub create_volume_created :
    (e : Env) (req : CreateRequest) (h : History) {vol : Volume}
    → result (create_volume e req h) ≡ ok vol
    → (p : Parameters) × (read_parameters req.parameters no_parameters ≡ ok p)
      × (vol ≡ volume_of req p)
      × IsEnsured e p.claim_namespace
          (data_pvc_def (volume_id_of req.name) (chosen_class e p.data_sc h) req.required_bytes)
          (after_choice p.data_sc h)
unfolding create_volume ◌>>=◌
create_volume_created e req h q = elim (Bool-cases (req.name == "")) [
  | inl empty ↦ absurd (refused (rw empty at q))
  | inr named ↦ elim (Bool-cases (are_valid_capabilities req.capabilities)) [
    | inl given ↦ read_then_ok e req _ h (rw (named, given) at q)
    | inr missing ↦ absurd (refused (rw (named, missing) at q))
  ]
]

-- A repeated request finds the claim and answers as before, and then nothing is created.
pub create_volume_again :
    (e : Env) (req : CreateRequest) (p : Parameters) (h : History)
    → (req.name == "") ≡ false
    → are_valid_capabilities req.capabilities ≡ true
    → read_parameters req.parameters no_parameters ≡ ok p
    → (e.pvc (after_choice p.data_sc h) p.claim_namespace (volume_id_of req.name)).error ≡ none
    → create_volume e req h ≡ (
      ok (volume_of req p),
      Call.get_pvc p.claim_namespace (volume_id_of req.name) ∷ after_choice p.data_sc h,
    )
unfolding create_volume provision ensure_data_pvc data_pvc_def ◌>>=◌
create_volume_again e req p h named given read found =
    rw (named, given, read, choose_class_lem, found)
