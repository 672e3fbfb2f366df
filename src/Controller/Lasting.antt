-- ===== src/Controller/Lasting.antt =====
-- Sequences of CreateVolume requests: what stays created.
use csi_driver_nfs_export.Base.{
  String, Bool, true, false, not, List, [], ◌∷◌, none, some, ◌==◌, ◌≡◌, refl, sym, ◌∙◌, inl, inr,
  Bool-cases, eq_iff, eq_refl, nothing,
}
use mathlib.Core.Path.{subst}
use csi_driver_nfs_export.Api.Objects.{Pvc}
use csi_driver_nfs_export.Api.Calls.{Call, History}
use csi_driver_nfs_export.Api.Exec.{Outcome, ok, result, calls}
use csi_driver_nfs_export.Api.Client.{Env}
use csi_driver_nfs_export.Api.Rules.{bind_ok, raise_if_ok}
use csi_driver_nfs_export.Controller.Parameters.{Parameters, no_parameters, read_parameters}
use csi_driver_nfs_export.Controller.Volume.{
  CreateRequest, Volume, are_valid_capabilities, volume_id_of, create_volume,
}
use csi_driver_nfs_export.Controller.Created.{volume_of, after_choice, create_volume_again}
use csi_driver_nfs_export.Controller.Store.{Claims, put_claim, IsClaimStore}
use csi_driver_nfs_export.Controller.Refinement.{
  Creation, stored_claim, refused, confirmed, added, create_volume_refines, after_choice_kept,
}

-- The requests one after the other, each on the calls of those before it.
unfoldable pub create_all : Env → List CreateRequest → History → List (Outcome Volume) × History
create_all e [] h = ([], h)
create_all e (req ∷ reqs) h =
    let (o, h') = create_volume e req h in let (os, h'') = create_all e reqs h' in (o ∷ os, h'')

pub data Creations : List CreateRequest → Claims → List (Outcome Volume) → Claims → Type 0 where
  finished : {before : Claims} → Creations [] before [] before
  next :
      {req : CreateRequest} {reqs : List CreateRequest} {a b c : Claims} {o : Outcome Volume}
      {os : List (Outcome Volume)}
      → Creation req a o b
      → Creations reqs b os c
      → Creations (req ∷ reqs) a (o ∷ os) c

put_claim-keeps :
    (n m : String) (new : Pvc) (claims : Claims)
    → claims n m ≡ none
    → (ns name : String) (claim : Pvc) → claims ns name ≡ some claim
    → put_claim n m new claims ns name ≡ some claim
put_claim-keeps n m new claims free ns name claim there = elim (Bool-cases (n == ns)) [
  | inr q ↦ rw q there
  | inl q ↦ elim (Bool-cases (m == name)) [
    | inr r ↦ rw (q, r) there
    | inl r ↦ nothing (sym free ∙ (rw (← (eq_iff n ns).0 q, ← (eq_iff m name).0 r) at there))
  ]
]

put_claim_lem :
    (n m : String) (new : Pvc) (claims : Claims) → put_claim n m new claims n m ≡ some new
put_claim_lem n m new claims = rw (eq_refl n, eq_refl m) refl

ok_inj : {v w : Volume} → ok v ≡ ok w → w ≡ v
ok_inj q = cc

-- A step of the specification keeps the claims that are there.
Creation-keeps :
    {req : CreateRequest} {a b : Claims} {o : Outcome Volume}
    → Creation req a o b
    → (ns name : String) (claim : Pvc) → a ns name ≡ some claim
    → b ns name ≡ some claim
Creation-keeps (refused c r) ns name claim there = there
Creation-keeps (confirmed p c read found) ns name claim there = there
Creation-keeps {req} {a} (added p class uid read free) ns name claim there =
    put_claim-keeps p.claim_namespace (volume_id_of req.name) (stored_claim req class uid) a free ns
      name claim there

Creations-keep :
    {reqs : List CreateRequest} {a c : Claims} {os : List (Outcome Volume)}
    → Creations reqs a os c
    → (ns name : String) (claim : Pvc) → a ns name ≡ some claim
    → c ns name ≡ some claim
Creations-keep finished ns name claim there = there
Creations-keep (next s rest) ns name claim there =
    Creations-keep rest ns name claim (Creation-keeps s ns name claim there)

-- A step of the specification that succeeds leaves the volume's claim.
Creation-leaves :
    {req : CreateRequest} {a b : Claims} {o : Outcome Volume}
    → Creation req a o b
    → (vol : Volume) → o ≡ ok vol
    → (p : Parameters) × (claim : Pvc) × (read_parameters req.parameters no_parameters ≡ ok p)
      × (vol ≡ volume_of req p)
      × (b p.claim_namespace (volume_id_of req.name) ≡ some claim)
Creation-leaves (refused c r) vol q = cc
Creation-leaves (confirmed p c read found) vol q = (p, c, read, ok_inj q, found)
Creation-leaves {req} {a} (added p class uid read free) vol q = (
  p,
  stored_claim req class uid,
  read,
  ok_inj q,
  put_claim_lem p.claim_namespace (volume_id_of req.name) (stored_claim req class uid) a,
)

true_of_not : (b : Bool) → not b ≡ false → b ≡ true
true_of_not true q = refl
true_of_not false q = cc

-- A request that succeeds has passed the checks.
pub accepted :
    (e : Env) (req : CreateRequest) (h h' : History) {vol : Volume}
    → create_volume e req h ≡ (ok vol, h')
    → ((req.name == "") ≡ false) × (are_valid_capabilities req.capabilities ≡ true)
unfolding create_volume
accepted e req h h' q =
    let (_, h1, p1, q1) = bind_ok _ _ q in
    let (_, h2, p2, q2) = bind_ok _ _ q1 in
    let (named, _) = raise_if_ok _ _ _ p1 in
    let (given, _) = raise_if_ok _ _ _ p2 in (named, true_of_not _ given)

module _ (e : Env) (claims : History → Claims) (store : IsClaimStore e claims) where
  -- Any sequence of CreateVolume requests, on a claim store that nobody else writes, is a run of the
  -- specification, outcome by outcome.
  pub create_all_refines :
      (reqs : List CreateRequest) (h : History)
      → Creations reqs (claims h) (create_all e reqs h).0 (claims (create_all e reqs h).1)
  unfolding create_all
  create_all_refines [] h = finished
  create_all_refines (req ∷ reqs) h =
      next (create_volume_refines e claims store req h)
        (create_all_refines reqs (create_volume e req h).1)

  -- What a successful request has left is there after any further requests.
  pub claim_lasts :
      (req : CreateRequest) (reqs : List CreateRequest) (h h' : History) {vol : Volume}
      → create_volume e req h ≡ (ok vol, h')
      → (p : Parameters) × (claim : Pvc) × (read_parameters req.parameters no_parameters ≡ ok p)
        × (vol ≡ volume_of req p)
        × (claims (create_all e reqs h').1 p.claim_namespace (volume_id_of req.name) ≡ some claim)
  claim_lasts req reqs h h' {vol} q =
      let step : Creation req (claims h) (ok vol) (claims h') =
        subst (λ (r : Outcome Volume × History). Creation req (claims h) r.0 (claims r.1)) q
          (create_volume_refines e claims store req h) in
      let (p, claim, read, same, there) = Creation-leaves step vol refl in
      (p, claim, read, same, Creations-keep (create_all_refines reqs h') _ _ claim there)

  -- On a claim store that nobody else writes, a request that has succeeded once gets the same volume
  -- again after any further CreateVolume requests, and its repetition creates nothing.
  pub create_volume_lasts :
      (req : CreateRequest) (reqs : List CreateRequest) (h h' : History) {vol : Volume}
      → create_volume e req h ≡ (ok vol, h')
      → (result (create_volume e req (create_all e reqs h').1) ≡ ok vol)
        × (claims (calls (create_volume e req (create_all e reqs h').1))
            ≡ claims (create_all e reqs h').1)
  create_volume_lasts req reqs h h' q =
      let (p, claim, read, same, there) = claim_lasts req reqs h h' q in
      let (named, given) = accepted e req h h' q in
      let g = (create_all e reqs h').1 in
      let kept = after_choice_kept e claims store req p.data_sc g in
      let found =
        store.found (after_choice p.data_sc g) p.claim_namespace (volume_id_of req.name) claim
          (rw kept there) in
      let again = create_volume_again e req p g named given read (rw found refl) in
      (
        rw (again, same) refl,
        rw again (
            store.kept (after_choice p.data_sc g)
              (Call.get_pvc p.claim_namespace (volume_id_of req.name)) refl
            ∙ kept),
      )
