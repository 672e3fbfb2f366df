-- ===== src/Service/Tests.antt =====
-- Runs of the theorems on the services.
use csi_driver_nfs_export.Base.{Bool, true, false, List, [], ◌∷◌, none, ◌≡◌, ◌↔◌, refl, any}
use csi_driver_nfs_export.Api.Calls.{Call}
use csi_driver_nfs_export.Api.Exec.{panic, result, calls}
use csi_driver_nfs_export.Api.Client.{Env}
use csi_driver_nfs_export.Api.Objects.{Pv}
use csi_driver_nfs_export.Api.Rules.{Extends}
use csi_driver_nfs_export.Controller.Volume.{find_pv}
use csi_driver_nfs_export.Driver.{Driver, new_driver}
use csi_driver_nfs_export.Main.{default_flags, options_of}
use csi_driver_nfs_export.Scenario.{
  healthy, healthy-PollsAsDocumented, given, volume, publish_request,
}
use csi_driver_nfs_export.Service.{answer}
use csi_driver_nfs_export.Service.Granted.{is_granted, is_authorized, calls_authorized}
use csi_driver_nfs_export.Service.Panics.{IsOnUnbound, answer_panics_exactly}
use csi_driver_nfs_export.Service.Requests.{Request}
use csi_driver_nfs_export.Service.Roles.{Rule, Attempt, covers, controller_role, node_role}

abbrev driver : Driver
driver = new_driver "v1.0.0" (options_of default_flags)

abbrev unbound : Pv
unbound = record volume { claim_ref = none }

abbrev unbinding : Env
unbinding = record healthy { pvs = λ h. given (unbound ∷ []) }

answer_panics_exactly_example :
    (result (answer unbinding driver (Request.unpublish_volume "nfs-1" "/target") []) ≡ panic)
    ↔ IsOnUnbound unbinding (Request.unpublish_volume "nfs-1" "/target") []
answer_panics_exactly_example =
    answer_panics_exactly unbinding (record { polled = healthy-PollsAsDocumented.polled }) driver
      (Request.unpublish_volume "nfs-1" "/target") []

unbinding_panics :
    result (answer unbinding driver (Request.unpublish_volume "nfs-1" "/target") []) ≡ panic
unfolding find_pv
unbinding_panics = answer_panics_exactly_example.1 (unbound, (refl, refl, refl, refl, refl), refl)

-- An authorizer that lets through what the rules cover and no more.
abbrev authorizer : List Rule → Attempt → Bool
authorizer role a = any (λ r. covers r a) role

calls_authorized_example :
    Extends
      (λ c. is_authorized authorizer node_role c ≡ true)
      []
      (calls (answer healthy driver (Request.publish_volume publish_request) []))
calls_authorized_example =
    calls_authorized healthy healthy-PollsAsDocumented authorizer (λ role a q. q) driver
      (Request.publish_volume publish_request) []

-- The controller's role does not reach the exports.
controller_confined : is_granted controller_role (Call.delete_statefulset "storage" "nfs-1") ≡ false
unfolding any
controller_confined = refl
