-- ===== src/Ensure/Code.antt =====
-- The three places of the code are runs of the program.
use csi_driver_nfs_export.Base.{String, ◌∷◌, inl, inr, Option-cases, ◌≡◌, refl}
use csi_driver_nfs_export.Api.Objects.{Pvc, StatefulSet, Service}
use csi_driver_nfs_export.Api.Calls.{Call, History}
use csi_driver_nfs_export.Api.Exec.{◌>>=◌, ◌>>◌, pure}
use csi_driver_nfs_export.Api.Client.{
  Env, get_pvc, create_pvc, get_statefulset, create_statefulset, get_service, create_service,
}
use csi_driver_nfs_export.Controller.Volume.{ensure_data_pvc}
use csi_driver_nfs_export.Node.Publish.{ensure_statefulset}
use csi_driver_nfs_export.Node.Mount.{ensure_service}
use csi_driver_nfs_export.Ensure.{Access, get_or_create, found_or_create, made_or_canceled, run}

abbrev pub claims_of : Env → Access Pvc
claims_of e = record { getting = get_pvc e; creating = create_pvc e }

abbrev pub statefulsets_of : Env → Access StatefulSet
statefulsets_of e = record { getting = get_statefulset e; creating = create_statefulset e }

abbrev pub services_of : Env → Access Service
services_of e = record { getting = get_service e; creating = create_service e }

module _ (e : Env) where
  claim_runs :
      (ns : String) (def : Pvc) (h : History)
      → ensure_data_pvc e ns def h ≡ run (claims_of e) (get_or_create ns def.name def) h
  unfolding ensure_data_pvc run get_or_create found_or_create made_or_canceled ◌>>=◌
  claim_runs ns def h = elim (Option-cases (e.pvc h ns def.name).error) [
    | inl there ↦ rw there refl
    | inr (f, absent) ↦
        elim (Option-cases (e.created_pvc (Call.get_pvc ns def.name ∷ h) ns def).error) [
          | inl accepted ↦ rw (absent, accepted) refl
          | inr (f', failed) ↦ rw (absent, failed) refl
        ]
  ]

  service_runs :
      (ns : String) (def : Service) (h : History)
      → ensure_service e ns def h ≡ run (services_of e) (get_or_create ns def.name def) h
  unfolding ensure_service run get_or_create found_or_create made_or_canceled ◌>>=◌
  service_runs ns def h = elim (Option-cases (e.service h ns def.name).error) [
    | inl there ↦ rw there refl
    | inr (f, absent) ↦
        elim (Option-cases (e.created_service (Call.get_service ns def.name ∷ h) ns def).error) [
          | inl accepted ↦ rw (absent, accepted) refl
          | inr (f', failed) ↦ rw (absent, failed) refl
        ]
  ]

  statefulset_runs :
      (ns : String) (def : StatefulSet) (h : History)
      → ensure_statefulset e ns def h
        ≡ (run (statefulsets_of e) (get_or_create ns def.name def) >> pure tt) h
  unfolding ensure_statefulset run get_or_create found_or_create made_or_canceled ◌>>=◌
  statefulset_runs ns def h = elim (Option-cases (e.statefulset h ns def.name).error) [
    | inl there ↦ rw there refl
    | inr (f, absent) ↦
        elim (Option-cases
          (e.created_statefulset (Call.get_statefulset ns def.name ∷ h) ns def).error) [
            | inl accepted ↦ rw (absent, accepted) refl
            | inr (f', failed) ↦ rw (absent, failed) refl
          ]
  ]

  -- The three places that make an object which may be there already are one program, on the calls for
  -- their objects: the data claim of `CreateVolume`, the Service of `NodePublishVolume`, and its
  -- StatefulSet, whose value is not used. They have the same outcome and make the same calls, on every
  -- branch and whatever the calls answer.
  pub ensure_runs :
      (ns : String) (claim : Pvc) (service : Service) (statefulset : StatefulSet) (h : History)
      → (ensure_data_pvc e ns claim h ≡ run (claims_of e) (get_or_create ns claim.name claim) h)
        × (ensure_service e ns service h
            ≡ run (services_of e) (get_or_create ns service.name service) h)
        × (ensure_statefulset e ns statefulset h
            ≡ (run (statefulsets_of e) (get_or_create ns statefulset.name statefulset) >> pure tt)
                h)
  ensure_runs ns claim service statefulset h =
      (claim_runs ns claim h, service_runs ns service h, statefulset_runs ns statefulset h)
