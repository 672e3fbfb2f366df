-- ===== src/Controller/Tests.antt =====
-- Runs of the controller's theorems on concrete requests.
use csi_driver_nfs_export.Base.{
  pos, true, [], ◌∷◌, ◌++◌, none, some, ◌==◌, ◌≡◌, ◌↔◌, refl, ◌||◌, not, any,
}
use csi_driver_nfs_export.Base.Entries.{Entries, index}
use csi_driver_nfs_export.Api.Objects.{Pv, CsiSource}
use csi_driver_nfs_export.Api.Calls.{Call, History}
use csi_driver_nfs_export.Api.Exec.{Outcome, ok, result, calls, ◌>>=◌}
use csi_driver_nfs_export.Api.Rules.{Does}
use csi_driver_nfs_export.Controller.Parameters.{
  Parameters, no_parameters, set_parameter, read_parameters,
}
use csi_driver_nfs_export.Controller.Volume.{
  Volume, volume_id_of, volume_context_of, are_valid_capabilities, find_pv, create_volume,
  delete_volume, provision, choose_class, ensure_data_pvc,
}
use csi_driver_nfs_export.Controller.Checks.{is_invalid_argument, is_foreign, create_volume_refuses}
use csi_driver_nfs_export.Controller.Effects.{
  IsProvisioning, IsCanceledOrInvalid, create_volume-Does,
}
use csi_driver_nfs_export.Controller.Created.{volume_of}
use csi_driver_nfs_export.Controller.Deleted.{delete_created_misses}
use csi_driver_nfs_export.Controller.Order.{HaveOther}
use csi_driver_nfs_export.Controller.Unordered.{create_volume_unordered}
use csi_driver_nfs_export.Base.GoMaps.{GoMap, IsAnswerOf}
use csi_driver_nfs_export.Params.{key_of}
use csi_driver_nfs_export.Controller.Succeeded.{IsProvided, create_volume_succeeds}
use csi_driver_nfs_export.Scenario.{healthy, fresh, class_parameters, create_request, app_claim}
use mathlib.Core.List.{Pairwise, Pairwise-pair}
use mathlib.Core.Bool.{Bool-set}
use mathlib.Core.Quot

abbrev parameters : Parameters
parameters = record no_parameters { data_sc = "fast"; hosts_allow = "*"; claim_namespace = "app" }

class_parameters_read : read_parameters class_parameters no_parameters ≡ ok parameters
unfolding read_parameters set_parameter key_of
class_parameters_read = refl

create_answers :
    result (create_volume fresh create_request []) ≡ ok (volume_of create_request parameters)
unfolding create_volume read_parameters set_parameter key_of ◌>>=◌ provision choose_class
    ensure_data_pvc
create_answers = refl

create_volume_succeeds_example :
    (result (create_volume fresh create_request []) ≡ ok (volume_of create_request parameters)) ↔ (
      (p : Parameters) × IsProvided fresh create_request [] p
      × (volume_of create_request parameters ≡ volume_of create_request p))
create_volume_succeeds_example =
    create_volume_succeeds fresh create_request [] (volume_of create_request parameters)

provided :
    (p : Parameters) × IsProvided fresh create_request [] p
    × (volume_of create_request parameters ≡ volume_of create_request p)
provided = create_volume_succeeds_example.0 create_answers

create_volume_refuses_example :
    (is_invalid_argument (result (create_volume healthy create_request [])) ≡ (
      ("pvc-1" == "")
      || not (are_valid_capabilities create_request.capabilities)
      || any is_foreign class_parameters))
    × (is_invalid_argument (result (create_volume healthy create_request [])) ≡ true
        → calls (create_volume healthy create_request []) ≡ [])
create_volume_refuses_example = create_volume_refuses healthy create_request []

create_volume-Does_example :
    Does
      (IsProvisioning (volume_id_of "pvc-1") "app" (pos 1024))
      IsCanceledOrInvalid
      (create_volume fresh create_request)
create_volume-Does_example =
    create_volume-Does fresh create_request parameters class_parameters_read

abbrev created_source : CsiSource
created_source = record {
  volume_handle = "nfs-1";
  volume_attributes = volume_context_of "nfs-1" "app" "ganesha" "*" ++ [];
}

abbrev created_volume : Pv
created_volume = record { name = "pvc-1"; csi = some created_source; claim_ref = some app_claim }

deletes_no_claim :
    delete_volume
      (record healthy { pvs = λ h. record { value = created_volume ∷ []; error = none } })
      "nfs-1"
      []
    ≡ (ok tt, Call.delete_pvc "" "" ∷ Call.list_pvs ∷ [])
unfolding find_pv index
deletes_no_claim =
    delete_created_misses
      (record healthy { pvs = λ h. record { value = created_volume ∷ []; error = none } }) "nfs-1"
      [] created_volume created_source "nfs-1" "app" "ganesha" "*" [] refl refl refl refl refl refl
      refl

abbrev hosts_first : Entries
hosts_first = ("nfshostsallow", "*") ∷ ("datastorageclass", "fast") ∷ []

differ : Pairwise HaveOther hosts_first
unfolding key_of
differ = (Pairwise-pair (λ a b. Bool-set _ _)).1 refl

abbrev parameter_map : GoMap HaveOther
parameter_map = Quot.mk (hosts_first, differ)

create_volume_unordered_example : IsContr (
    (r : Outcome Volume × History) × IsAnswerOf HaveOther parameter_map
      (λ m. create_volume fresh (record create_request { parameters = m }) [])
      r)
create_volume_unordered_example = create_volume_unordered fresh create_request [] parameter_map
