-- ===== src/Controller/Succeeded.antt =====
-- Exactly which requests CreateVolume answers with a volume, and with which.
use csi_driver_nfs_export.Base.{
  String, List, [], ◌∷◌, none, some, ◌⊎◌, true, false, ◌==◌, ◌≡◌, ◌↔◌, inl, inr, refl, Bool-cases,
  Option-cases, some_inj, eq_iff, sym, ◌∙◌, ◌≢◌, differ,
}
use csi_driver_nfs_export.Base.Entries.{lookup}
use csi_driver_nfs_export.Api.Objects.{Pvc, StorageClass, read_write_once}
use csi_driver_nfs_export.Api.Calls.{Call, History}
use csi_driver_nfs_export.Api.Exec.{ok, result, ◌>>=◌}
use csi_driver_nfs_export.Api.Client.{Env}
use csi_driver_nfs_export.Params.{id_label}
use csi_driver_nfs_export.Controller.Created.{
  IsEnsured, volume_of, chosen_class, after_choice, choose_class_lem, create_volume_created,
}
use csi_driver_nfs_export.Controller.Parameters.{Parameters, no_parameters, read_parameters}
use csi_driver_nfs_export.Controller.Volume.{
  CreateRequest, Volume, are_valid_capabilities, volume_id_of, is_default_class, find_default_class,
  data_pvc_def, ensure_data_pvc, provision, create_volume,
}

-- The class is annotated as the default.
abbrev pub IsMarked : StorageClass → Type 0
IsMarked c = lookup "storageclass.kubernetes.io/is-default-class" c.annotations ≡ some "true"

-- The name of the first class that is marked, and the empty text where none is.
unfoldable pub IsFirstMarked : String → List StorageClass → Type 0
IsFirstMarked sc [] = sc ≡ ""
IsFirstMarked sc (c ∷ cs) = (IsMarked c × (sc ≡ c.name)) ⊎ ((¬ IsMarked c) × IsFirstMarked sc cs)

IsMarked-cases :
    (c : StorageClass)
    → (IsMarked c × (is_default_class c ≡ true)) ⊎ ((¬ IsMarked c) × (is_default_class c ≡ false))
unfolding is_default_class
IsMarked-cases c =
    elim (Option-cases (lookup "storageclass.kubernetes.io/is-default-class" c.annotations)) [
      | inl bare ↦ inr (rw bare (λ wrong. cc), rw (bare, is_default_class) refl)
      | inr (v, has) ↦ elim (Bool-cases (v == "true")) [
        | inl q ↦ inl (rw (has, (eq_iff _ _).0 q) refl, rw (has, q, is_default_class) refl)
        | inr q ↦ inr (
          λ marked.
              let same : v ≡ "true" = some_inj (sym has ∙ marked) in
              differ (sym q ∙ (eq_iff _ _).1 same),
          rw (has, q, is_default_class) refl,
        )
      ]
    ]

default_is_first :
    (sc : String) (cs : List StorageClass) → find_default_class cs ≡ sc → IsFirstMarked sc cs
unfolding IsFirstMarked find_default_class
default_is_first sc [] same = sym same
default_is_first sc (c ∷ cs) same = elim (IsMarked-cases c) [
  | inl (marked, q) ↦ inl (marked, sym (rw q at same))
  | inr (plain, q) ↦ inr (plain, default_is_first sc cs (rw q at same))
]

first_marked_unique :
    (sc : String) (cs : List StorageClass) → IsFirstMarked sc cs → find_default_class cs ≡ sc
unfolding IsFirstMarked find_default_class
first_marked_unique sc [] same = sym same
first_marked_unique sc (c ∷ cs) (inl (marked, same)) = elim (IsMarked-cases c) [
  | inl (_, q) ↦ rw q (sym same)
  | inr (plain, _) ↦ absurd (plain marked)
]
first_marked_unique sc (c ∷ cs) (inr (plain, rest)) = elim (IsMarked-cases c) [
  | inl (marked, _) ↦ absurd (plain marked)
  | inr (_, q) ↦ rw q (first_marked_unique sc cs rest)
]

module _ (e : Env) (given : String) (h : History) where
  -- The class is the one that the parameters name. Where they name none, it is the first marked one
  -- of the classes that are listed, and the empty text where the list fails.
  abbrev pub IsClass : String → Type 0
  IsClass sc =
      (((given == "") ≡ false) × (sc ≡ given))
      ⊎ (((given == "") ≡ true) × ((e.storage_classes h).error ≢ none) × (sc ≡ ""))
      ⊎ (((given == "") ≡ true)
          × ((e.storage_classes h).error ≡ none)
          × IsFirstMarked sc (e.storage_classes h).value)

  chosen_class-IsClass : IsClass (chosen_class e given h)
  chosen_class-IsClass = elim (Bool-cases (given == "")) [
    | inr named ↦ inl (named, rw named refl)
    | inl empty ↦ inr (elim (Option-cases (e.storage_classes h).error) [
      | inl listed ↦ inr (empty, listed, rw (empty, listed) (default_is_first _ _ refl))
      | inr (f, failed) ↦ inl (empty, rw failed (λ wrong. cc), rw (empty, failed) refl)
    ])
  ]

  class_unique : (sc : String) → IsClass sc → chosen_class e given h ≡ sc
  class_unique sc (inl (named, same)) = rw named (sym same)
  class_unique sc (inr (inl (empty, failed, same))) =
      elim (Option-cases (e.storage_classes h).error) [
        | inl listed ↦ absurd (failed listed)
        | inr (f, q) ↦ rw (empty, q) (sym same)
      ]
  class_unique sc (inr (inr (empty, listed, first))) =
      rw (empty, listed) (first_marked_unique sc _ first)

module _ (e : Env) (req : CreateRequest) (h : History) where
  -- The claim of the volume, of the storage class `sc`.
  abbrev pub claim_of : String → Pvc
  claim_of sc = record {
    name = volume_id_of req.name;
    uid = "";
    labels = (id_label, volume_id_of req.name) ∷ [];
    storage_class_name = sc;
    access_modes = read_write_once ∷ [];
    storage = req.required_bytes;
  }

  -- The request has a name and capabilities, its parameters are read as `p`, and a claim of the
  -- volume's identifier was found, or one of the requested size was accepted.
  abbrev pub IsProvided : Parameters → Type 0
  IsProvided p =
      ((req.name == "") ≡ false)
      × (are_valid_capabilities req.capabilities ≡ true)
      × (read_parameters req.parameters no_parameters ≡ ok p)
      × (((e.pvc (after_choice p.data_sc h) p.claim_namespace (volume_id_of req.name)).error ≡ none)
          ⊎ ((sc : String) × IsClass e p.data_sc h sc
              × ((e.created_pvc
                    (Call.get_pvc p.claim_namespace (volume_id_of req.name)
                      ∷ after_choice p.data_sc h)
                    p.claim_namespace (claim_of sc)).error
                  ≡ none)))

  -- The claim as the code puts it together.
  abbrev IsEnsuredHere : Parameters → Type 0
  IsEnsuredHere p =
      IsEnsured e p.claim_namespace
        (data_pvc_def (volume_id_of req.name) (chosen_class e p.data_sc h) req.required_bytes)
        (after_choice p.data_sc h)

  provided_ensured : (p : Parameters) → IsProvided p → IsEnsuredHere p
  unfolding data_pvc_def
  provided_ensured p (_, _, _, inl there) = inl there
  provided_ensured p (_, _, _, inr (sc, is, accepted)) =
      inr (rw (class_unique e p.data_sc h sc is) accepted)

  ensured-IsProvided :
      (p : Parameters)
      → ((req.name == "") ≡ false) × (are_valid_capabilities req.capabilities ≡ true)
      → read_parameters req.parameters no_parameters ≡ ok p
      → IsEnsuredHere p
      → IsProvided p
  unfolding data_pvc_def
  ensured-IsProvided p (named, given) read (inl there) = (named, given, read, inl there)
  ensured-IsProvided p (named, given) read (inr accepted) = (
    named,
    given,
    read,
    inr (chosen_class e p.data_sc h, chosen_class-IsClass e p.data_sc h, accepted),
  )

  ensured_succeeds :
      (p : Parameters)
      → (req.name == "") ≡ false
      → are_valid_capabilities req.capabilities ≡ true
      → read_parameters req.parameters no_parameters ≡ ok p
      → IsEnsuredHere p
      → result (create_volume e req h) ≡ ok (volume_of req p)
  unfolding create_volume provision ensure_data_pvc ◌>>=◌
  ensured_succeeds p named given read (inl there) =
      rw (named, given, read, choose_class_lem, there) refl
  ensured_succeeds p named given read (inr accepted) =
      elim (Option-cases
        (e.pvc (after_choice p.data_sc h) p.claim_namespace
          (data_pvc_def (volume_id_of req.name) (chosen_class e p.data_sc h)
            req.required_bytes).name).error) [
              | inl there ↦ rw (named, given, read, choose_class_lem, there) refl
              | inr (f, absent) ↦ rw (named, given, read, choose_class_lem, absent, accepted) refl
            ]

  provided_succeeds :
      (p : Parameters) → IsProvided p → result (create_volume e req h) ≡ ok (volume_of req p)
  provided_succeeds p all =
      let (named, given, read, _) = all in
      ensured_succeeds p named given read (provided_ensured p all)

  checked :
      (vol : Volume)
      → result (create_volume e req h) ≡ ok vol
      → ((req.name == "") ≡ false) × (are_valid_capabilities req.capabilities ≡ true)
  unfolding create_volume ◌>>=◌
  checked vol q = elim (Bool-cases (req.name == "")) [
    | inl empty ↦ let wrong = rw empty at q in cc
    | inr named ↦ elim (Bool-cases (are_valid_capabilities req.capabilities)) [
      | inl given ↦ (named, given)
      | inr missing ↦ let wrong = rw (named, missing) at q in cc
    ]
  ]

  -- `CreateVolume` answers with a volume exactly if the request has a name and capabilities, all its
  -- parameters are known, and either any claim with the volume's identifier as its name was found in
  -- the claim namespace, whatever its size and class, or the API server has accepted a new one: with
  -- that name and the label of the identifier, of the requested size, read and written once, and of
  -- the class that the parameters name. Where they name none, the class is the first listed one whose
  -- annotation marks it as the default, and empty where none is marked or the list fails. The volume
  -- is then the one that the parameters describe.
  pub create_volume_succeeds :
      (vol : Volume)
      → (result (create_volume e req h) ≡ ok vol)
        ↔ ((p : Parameters) × IsProvided p × (vol ≡ volume_of req p))
  create_volume_succeeds vol = (
    λ q.
        let (p, read, same, ensured) = create_volume_created e req h q in
        (p, ensured-IsProvided p (checked vol q) read ensured, same),
    λ (p, provided, same). rw same (provided_succeeds p provided),
  )
