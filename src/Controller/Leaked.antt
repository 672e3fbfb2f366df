-- ===== src/Controller/Leaked.antt =====
-- A volume's life in the controller service: the data claim outlives the volume.
use csi_driver_nfs_export.Base.{
  differ, String, false, ◌&&◌, List, ◌∷◌, ◌++◌, none, some, ◌==◌, ◌≡◌, refl, sym, ◌∙◌, inl, inr,
  Bool-cases, eq_iff, eq_refl, ap, if◌then◌else◌,
}
use csi_driver_nfs_export.Base.Entries.{Entries, index}
use csi_driver_nfs_export.Api.Objects.{Pvc, Pv, CsiSource}
use csi_driver_nfs_export.Api.Calls.{Call, History}
use csi_driver_nfs_export.Api.Exec.{ok, result, calls}
use csi_driver_nfs_export.Api.Client.{Env}
use csi_driver_nfs_export.Params.{default_image}
use csi_driver_nfs_export.Controller.Parameters.{Parameters, no_parameters, read_parameters}
use csi_driver_nfs_export.Controller.Volume.{
  CreateRequest, Volume, volume_id_of, find_pv, create_volume, delete_volume,
}
use csi_driver_nfs_export.Controller.Deleted.{delete_created_misses}
use csi_driver_nfs_export.Controller.Store.{Claims, IsClaimStore}
use csi_driver_nfs_export.Controller.Lasting.{create_all, claim_lasts}

unmatched : (ns name : String) → (name == "") ≡ false → ("" == ns && "" == name) ≡ false
unmatched ns name named = elim (Bool-cases ("" == name)) [
  | inl hit ↦ absurd (differ (sym named ∙ (rw (← (eq_iff "" name).0 hit) (eq_refl ""))))
  | inr miss ↦ elim (Bool-cases ("" == ns)) [ inl q ↦ rw (q, miss) refl | inr q ↦ rw q refl ]
]

module _ (e : Env) (claims : History → Claims) (store : IsClaimStore e claims) where
  -- A volume was created on a claim store that nobody else writes, further ones were created, and a
  -- persistent volume with its identifier carries its context, with entries of other names beside it.
  -- Then `DeleteVolume` succeeds for the identifier, and the volume's data claim is still there.
  pub deleted_claim_remains :
      (req : CreateRequest) (reqs : List CreateRequest) (h h' : History) (vol : Volume) (pv : Pv)
      (csi : CsiSource) (extra : Entries)
      → create_volume e req h ≡ (ok vol, h')
      → (vol.volume_id == "") ≡ false
      → (e.pvs (create_all e reqs h').1).error ≡ none
      → find_pv vol.volume_id (e.pvs (create_all e reqs h').1).value ≡ some pv
      → pv.csi ≡ some csi
      → csi.volume_attributes ≡ vol.volume_context ++ extra
      → index "nfsVolumeClaim" extra ≡ ""
      → index "nfsNamespace" extra ≡ ""
      → (p : Parameters) × (claim : Pvc) × (read_parameters req.parameters no_parameters ≡ ok p)
        × (result (delete_volume e vol.volume_id (create_all e reqs h').1) ≡ ok tt)
        × (claims
              (calls (delete_volume e vol.volume_id (create_all e reqs h').1))
              p.claim_namespace
              vol.volume_id
            ≡ some claim)
  deleted_claim_remains req reqs h h' vol pv csi extra made named listed found has attrs c n =
      let (p, claim, read, same, there) = claim_lasts e claims store req reqs h h' made in
      let g = (create_all e reqs h').1 in
      let id = volume_id_of req.name in
      let misses =
        delete_created_misses e vol.volume_id g pv csi id p.claim_namespace
          (if p.server_image == "" then default_image else p.server_image) p.hosts_allow extra named
          listed found has (attrs ∙ ap (λ (v : Volume). v.volume_context ++ extra) same) c n in
      let named' : (id == "") ≡ false = rw same at named in
      let kept =
        store.deleted (Call.list_pvs ∷ g) "" "" p.claim_namespace id
          (unmatched p.claim_namespace id named') in
      (
        p,
        claim,
        read,
        rw misses refl,
        rw (misses, same)
            (kept
              ∙ ap (λ (f : Claims). f p.claim_namespace id) (store.kept g Call.list_pvs refl)
              ∙ there),
      )
