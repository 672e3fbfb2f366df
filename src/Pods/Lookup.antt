-- ===== src/Pods/Lookup.antt =====
-- `getPVCByUidStr`: which claim the loop ends on.
use csi_driver_nfs_export.Base.{
  String, true, false, List, [], ◌∷◌, ◌++◌, none, some, ◌==◌, ◌≡◌, All, ◌⊎◌, inl, inr,
}
use csi_driver_nfs_export.Api.Objects.{Pvc}
use csi_driver_nfs_export.Api.Calls.{Call, History}
use csi_driver_nfs_export.Api.Exec.{ok, ◌>>=◌}
use csi_driver_nfs_export.Api.Client.{Env}
use csi_driver_nfs_export.Pods.{last_visited, no_pvc, get_pvc_by_uid}

last_visited-found :
    (uid : String) (start : Pvc) (before after : List Pvc) (pvc : Pvc)
    → All (λ p. (p.uid == uid) ≡ false) before
    → (pvc.uid == uid) ≡ true
    → last_visited uid start (before ++ pvc ∷ after) ≡ pvc
unfolding last_visited
last_visited-found uid start [] after pvc others hit = rw hit
last_visited-found uid start (p ∷ before) after pvc others hit =
    rw (others.0) (last_visited-found uid p before after pvc others.1 hit)

last_visited-missing :
    (uid : String) (start : Pvc) (before : List Pvc) (pvc : Pvc)
    → All (λ p. (p.uid == uid) ≡ false) before
    → (pvc.uid == uid) ≡ false
    → last_visited uid start (before ++ pvc ∷ []) ≡ pvc
unfolding last_visited
last_visited-missing uid start [] pvc others miss = rw miss
last_visited-missing uid start (p ∷ before) pvc others miss =
    rw (others.0) (last_visited-missing uid p before pvc others.1 miss)

module _ (e : Env) (uid : String) (before : List Pvc) (pvc : Pvc) (h : History) where
  -- `getPVCByUidStr` returns the listed claim at which the loop stops, if it has a name: the first
  -- one with the identifier, and the last one of the list, as if it had the identifier, if no claim has.
  pub get_pvc_by_uid_stops :
      (after : List Pvc)
      → (e.pvcs h).error ≡ none
      → (e.pvcs h).value ≡ before ++ pvc ∷ after
      → All (λ p. (p.uid == uid) ≡ false) before
      → ((pvc.uid == uid) ≡ true) ⊎ (((pvc.uid == uid) ≡ false) × (after ≡ []))
      → (pvc.name == "") ≡ false
      → get_pvc_by_uid e uid h ≡ (ok (some pvc), Call.list_pvcs ∷ h)
  unfolding get_pvc_by_uid ◌>>=◌
  get_pvc_by_uid_stops after listed are others (inl hit) named =
      rw (listed, are, last_visited-found uid no_pvc before after pvc others hit, named)
  get_pvc_by_uid_stops after listed are others (inr (miss, last)) named =
      rw (listed, are, last, last_visited-missing uid no_pvc before pvc others miss, named)
