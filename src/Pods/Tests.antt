-- ===== src/Pods/Tests.antt =====
-- A run of the theorem on the lookup of claims.
use csi_driver_nfs_export.Base.{inr, [], ◌∷◌, some, ◌≡◌, refl}
use csi_driver_nfs_export.Api.Calls.{Call}
use csi_driver_nfs_export.Api.Exec.{ok}
use csi_driver_nfs_export.Pods.{get_pvc_by_uid}
use csi_driver_nfs_export.Pods.Lookup.{get_pvc_by_uid_stops}
use csi_driver_nfs_export.Scenario.{healthy, data_claim}

-- The claim has the identifier "u-1".
get_pvc_by_uid_stops_example :
    get_pvc_by_uid healthy "u-7" [] ≡ (ok (some data_claim), Call.list_pvcs ∷ [])
get_pvc_by_uid_stops_example =
    get_pvc_by_uid_stops healthy "u-7" [] data_claim [] [] refl refl tt (inr (refl, refl)) refl
