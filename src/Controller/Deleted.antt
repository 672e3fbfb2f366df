-- ===== src/Controller/Deleted.antt =====
-- `DeleteVolume`: what it deletes, and that it does not reach the claims that `CreateVolume` makes.
use csi_driver_nfs_export.Base.{
  ◌⊎◌, some_inj, String, true, false, List, [], ◌∷◌, ◌++◌, none, some, ◌==◌, ◌≡◌, inl, inr,
  Option-cases, Bool-cases, eq_iff,
}
use csi_driver_nfs_export.Base.Entries.{Entries, index}
use csi_driver_nfs_export.Api.Objects.{Pv, CsiSource, Failure}
use csi_driver_nfs_export.Api.Calls.{Call, History}
use csi_driver_nfs_export.Api.Exec.{ok, err, invalid_argument, id_empty, ◌>>=◌}
use csi_driver_nfs_export.Api.Client.{Env}
use csi_driver_nfs_export.Controller.Volume.{
  volume_context_of, find_pv, get_pv_by_id, delete_volume,
}

-- A volume that is found has a CSI source with the handle that was looked for.
pub find_pv-has_handle :
    (id : String) (pvs : List Pv) {found : Pv}
    → find_pv id pvs ≡ some found
    → (csi : CsiSource) × (found.csi ≡ some csi) × (csi.volume_handle ≡ id)
unfolding find_pv
find_pv-has_handle id [] q = cc
find_pv-has_handle id (pv ∷ pvs) {found} q = elim (Option-cases pv.csi) [
  | inl bare ↦ find_pv-has_handle id pvs (rw bare at q)
  | inr (csi, has) ↦ elim (Bool-cases (csi.volume_handle == id)) [
    | inl hit ↦
        let same : pv ≡ found = some_inj (rw (has, hit) at q) in
        (csi, rw (← same) has, (eq_iff _ _).0 hit)
    | inr miss ↦ find_pv-has_handle id pvs (rw (has, miss) at q)
  ]
]

pub delete_volume_ends :
    (e : Env) (id : String) (h : History)
    → ((id == "") ≡ true → delete_volume e id h ≡ (err invalid_argument id_empty, h))
      × ((id == "") ≡ false
          → ((((f : Failure) × ((e.pvs h).error ≡ some f)) ⊎ (find_pv id (e.pvs h).value ≡ none))
              × (delete_volume e id h ≡ (ok tt, Call.list_pvs ∷ h)))
            ⊎ ((pv : Pv) × (csi : CsiSource) × ((e.pvs h).error ≡ none)
                × (find_pv id (e.pvs h).value ≡ some pv)
                × (pv.csi ≡ some csi)
                × (csi.volume_handle ≡ id)
                × (delete_volume e id h ≡ (
                  ok tt,
                  Call.delete_pvc
                        (index "nfsNamespace" csi.volume_attributes)
                        (index "nfsVolumeClaim" csi.volume_attributes)
                      ∷ Call.list_pvs
                      ∷ h,
                ))))
unfolding delete_volume get_pv_by_id ◌>>=◌
delete_volume_ends e id h = (
  λ empty. rw empty,
  λ named. elim (Option-cases (e.pvs h).error) [
    | inl listed ↦ elim (Option-cases (find_pv id (e.pvs h).value)) [
      | inl missing ↦ inl (inr missing, rw (named, listed, missing))
      | inr (pv, found) ↦
          let (csi, has, handle) = find_pv-has_handle id (e.pvs h).value found in
          inr (pv, csi, listed, found, has, handle, rw (named, listed, found, has))
    ]
    | inr (f, failed) ↦ inl (inl (f, failed), rw (named, failed))
  ],
)

-- `DeleteVolume` reads "nfsNamespace" and "nfsVolumeClaim", which are no keys of the context that
-- `CreateVolume` answers with. So for a volume that carries such a context, with entries of other
-- names beside it, it asks to delete the claim without a name in no namespace, and succeeds.
pub delete_created_misses :
    (e : Env) (id : String) (h : History) (pv : Pv) (csi : CsiSource)
    (claim ns image hosts : String) (extra : Entries)
    → (id == "") ≡ false
    → (e.pvs h).error ≡ none
    → find_pv id (e.pvs h).value ≡ some pv
    → pv.csi ≡ some csi
    → csi.volume_attributes ≡ volume_context_of claim ns image hosts ++ extra
    → index "nfsVolumeClaim" extra ≡ ""
    → index "nfsNamespace" extra ≡ ""
    → delete_volume e id h ≡ (ok tt, Call.delete_pvc "" "" ∷ Call.list_pvs ∷ h)
unfolding delete_volume ◌>>=◌ volume_context_of
delete_created_misses e id h pv csi claim ns image hosts extra named listed found has attrs c n =
    rw (named, listed, found, has, attrs, c, n)
