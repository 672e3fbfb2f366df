-- ===== src/Controller/Store.antt =====
-- The API server's claims, for a driver that nobody else writes beside: what the documentation of
-- the Kubernetes API promises of Get, Create and Delete, as laws of the environment.
use csi_driver_nfs_export.Base.{
  String, Bool, true, false, ◌&&◌, ◌∷◌, Option, none, some, ◌==◌, ◌≡◌, if◌then◌else◌,
}
use csi_driver_nfs_export.Api.Objects.{Pvc, Failure}
use csi_driver_nfs_export.Api.Calls.{Call, History}
use csi_driver_nfs_export.Api.Client.{Env}

-- The claims by namespace and name.
abbrev pub Claims : Type 0
Claims = String → String → Option Pvc

abbrev pub put_claim : String → String → Pvc → Claims → Claims
put_claim ns name claim claims n m = if ns == n && name == m then some claim else claims n m

abbrev pub writes_claims : Call → Bool
writes_claims (Call.create_pvc _ _) = true
writes_claims (Call.delete_pvc _ _) = true
writes_claims _ = false

-- `claims h` are the claims that are stored after the calls `h`. A claim is created with an
-- identifier of the server's choice, and only where the name is free; a call that fails leaves the
-- claims as they are; a deletion leaves all other claims.
pub record IsClaimStore (e : Env) (claims : History → Claims) : Type 0 where
  pub found :
      (h : History) (ns name : String) (claim : Pvc)
      → claims h ns name ≡ some claim
      → e.pvc h ns name ≡ record { value = claim; error = none }
  pub missing :
      (h : History) (ns name : String)
      → claims h ns name ≡ none
      → (f : Failure) × ((e.pvc h ns name).error ≡ some f)
  pub created :
      (h : History) (ns : String) (def : Pvc)
      → claims h ns def.name ≡ none
      → (e.created_pvc h ns def).error ≡ none
      → (uid : String) × (claims (Call.create_pvc ns def ∷ h)
          ≡ put_claim ns def.name (record def { uid = uid }) (claims h))
  pub uncreated :
      (h : History) (ns : String) (def : Pvc) (f : Failure)
      → (e.created_pvc h ns def).error ≡ some f
      → claims (Call.create_pvc ns def ∷ h) ≡ claims h
  pub deleted :
      (h : History) (ns name n m : String)
      → (ns == n && name == m) ≡ false
      → claims (Call.delete_pvc ns name ∷ h) n m ≡ claims h n m
  pub kept : (h : History) (c : Call) → writes_claims c ≡ false → claims (c ∷ h) ≡ claims h
