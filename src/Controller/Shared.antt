-- ===== src/Controller/Shared.antt =====
-- `CreateVolume` on an API server where others create and change claims too, at any time.
use csi_driver_nfs_export.Base.{
  String, Bool, true, ◌∷◌, none, ◌==◌, ◌≡◌, sym, ◌∙◌, ap, inl, inr, Bool-cases, Option-cases,
}
use mathlib.Core.Path.{subst}
use csi_driver_nfs_export.Api.Objects.{Pvc}
use csi_driver_nfs_export.Api.Calls.{Call, History}
use csi_driver_nfs_export.Api.Exec.{Code, Reason, Outcome, ok, err, ◌>>=◌}
use csi_driver_nfs_export.Api.Client.{Env}
use csi_driver_nfs_export.Api.Rules.{Extends, same, more, bind_ok, lift_ok, pure_ok}
use csi_driver_nfs_export.Controller.Parameters.{Parameters, no_parameters, read_parameters}
use csi_driver_nfs_export.Controller.Volume.{
  CreateRequest, Volume, volume_id_of, data_pvc_def, ensure_data_pvc, provision, create_volume,
}
use csi_driver_nfs_export.Controller.Created.{
  volume_of, after_choice, create_volume_again, create_volume_created,
}
use csi_driver_nfs_export.Controller.Lasting.{accepted}

-- The call deletes no claim.
abbrev pub SparesClaims : Call → Type 0
SparesClaims (Call.delete_pvc ns name) = ⊥
SparesClaims _ = Unit

-- `has h ns name`: the claim is there after the calls `h`, and whatever others have done between them.
-- Get finds the claims that are there, a creation that is accepted leaves its claim, and a claim stays
-- while none is deleted.
pub record IsSharedStore (e : Env) (has : History → String → String → Bool) : Type 0 where
  pub found :
      (h : History) (ns name : String) → has h ns name ≡ true → (e.pvc h ns name).error ≡ none
  pub seen :
      (h : History) (ns name : String) → (e.pvc h ns name).error ≡ none → has h ns name ≡ true
  pub created :
      (h : History) (ns : String) (def : Pvc)
      → (e.created_pvc h ns def).error ≡ none
      → has (Call.create_pvc ns def ∷ h) ns def.name ≡ true
  pub kept :
      (h : History) (c : Call) (ns name : String)
      → SparesClaims c
      → has h ns name ≡ true
      → has (c ∷ h) ns name ≡ true

ok_inj : {p q : Parameters} → ok p ≡ ok q → p ≡ q
ok_inj h = cc

refused :
    {A : Type 0} {c : Code} {r : Reason} {a : A} {h h' : History}
    → ◌≡◌ {A = Outcome A × History} (err c r, h) (ok a, h')
    → ⊥
refused q = cc

module _ (e : Env) (has : History → String → String → Bool) (store : IsSharedStore e has) where
  Extends-has :
      {h h' : History} (ns name : String)
      → Extends SparesClaims h h'
      → has h ns name ≡ true
      → has h' ns name ≡ true
  Extends-has ns name same there = there
  Extends-has ns name (more {c} {h'} p rest) there =
      store.kept h' c ns name p (Extends-has ns name rest there)

  ensure_leaves :
      (ns : String) (def : Pvc) (h h' : History) {claim : Pvc}
      → ensure_data_pvc e ns def h ≡ (ok claim, h')
      → has h' ns def.name ≡ true
  unfolding ensure_data_pvc ◌>>=◌
  ensure_leaves ns def h h' q = elim (Option-cases (e.pvc h ns def.name).error) [
    | inl there ↦
        let after = ap (λ (r : Outcome Pvc × History). r.1) (rw there at q) in
        subst (λ (g : History). has g ns def.name ≡ true) after
          (store.kept h (Call.get_pvc ns def.name) ns def.name tt (store.seen h ns def.name there))
    | inr (f, absent) ↦
        elim (Option-cases (e.created_pvc (Call.get_pvc ns def.name ∷ h) ns def).error) [
          | inl made ↦
              let after = ap (λ (r : Outcome Pvc × History). r.1) (rw (absent, made) at q) in
              subst (λ (g : History). has g ns def.name ≡ true) after
                (store.created (Call.get_pvc ns def.name ∷ h) ns def made)
          | inr (f', failed) ↦ absurd (refused (rw (absent, failed) at q))
        ]
  ]

  create_leaves :
      (req : CreateRequest) (h h' : History) {vol : Volume}
      → create_volume e req h ≡ (ok vol, h')
      → (p : Parameters) × (read_parameters req.parameters no_parameters ≡ ok p)
        × (has h' p.claim_namespace (volume_id_of req.name) ≡ true)
  unfolding create_volume provision data_pvc_def
  create_leaves req h h' q =
      let (_, h1, p1, q1) = bind_ok _ _ q in
      let (_, h2, p2, q2) = bind_ok _ _ q1 in
      let (p, h3, p3, q3) = bind_ok _ _ q2 in
      let (class, h4, p4, q4) = bind_ok _ _ q3 in
      let (claim, h5, p5, q5) = bind_ok _ _ q4 in
      let there = ensure_leaves p.claim_namespace _ h4 h5 p5 in
      (
        p,
        (lift_ok _ p3).0,
        subst (λ (g : History). has g p.claim_namespace (volume_id_of req.name) ≡ true)
            (sym (pure_ok _ q5).1) there,
      )

  choice_keeps :
      (sc : String) (h : History) (ns name : String)
      → has h ns name ≡ true
      → has (after_choice sc h) ns name ≡ true
  choice_keeps sc h ns name there = elim (Bool-cases (sc == "")) [
    | inl q ↦ rw q (store.kept h Call.list_storage_classes ns name tt there)
    | inr q ↦ rw q there
  ]

  -- Others create and change claims at any time. A request that has succeeded once gets the same
  -- volume again after any further calls of the driver that delete no claim, and its repetition
  -- creates nothing: it looks up the claim, behind the storage classes if the request names none.
  pub create_volume_survives :
      (req : CreateRequest) (h h' g : History) {vol : Volume}
      → create_volume e req h ≡ (ok vol, h')
      → Extends SparesClaims h' g
      → (p : Parameters) × (read_parameters req.parameters no_parameters ≡ ok p)
        × (create_volume e req g ≡ (
          ok vol,
          Call.get_pvc p.claim_namespace (volume_id_of req.name) ∷ after_choice p.data_sc g,
        ))
  create_volume_survives req h h' g q later =
      let (p, read, there) = create_leaves req h h' q in
      let (p', read', as_read, _) =
        create_volume_created e req h (ap (λ (r : Outcome Volume × History). r.0) q) in
      let (named, given) = accepted e req h h' q in
      let reach : has (after_choice p.data_sc g) p.claim_namespace (volume_id_of req.name) ≡ true =
        choice_keeps p.data_sc g _ _ (Extends-has _ _ later there) in
      let found =
        store.found (after_choice p.data_sc g) p.claim_namespace (volume_id_of req.name) reach in
      (
        p,
        read,
        rw (as_read ∙ ap (volume_of req) (ok_inj (sym read' ∙ read)))
            (create_volume_again e req p g named given read found),
      )
