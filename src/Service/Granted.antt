-- ===== src/Service/Granted.antt =====
-- That the roles of the deployment are enough for the driver.
use csi_driver_nfs_export.Base.{
  String, ◌<>◌, ℕ, Bool, true, List, [], none, some, ◌≡◌, refl, any, inl, inr, Option-cases,
}
use csi_driver_nfs_export.Api.Calls.{Call, History}
use csi_driver_nfs_export.Api.Exec.{calls}
use csi_driver_nfs_export.Api.Client.{Env, PollsAsDocumented}
use csi_driver_nfs_export.Api.Rules.{Extends}
use csi_driver_nfs_export.Api.Makes.{
  Makes, makes_rules, Makes-bind, Makes-call, Does-Makes, Makes-pure, Extends-mono,
}
use csi_driver_nfs_export.Controller.Volume.{
  CreateRequest, get_pv_by_id, choose_class, ensure_data_pvc, provision, create_volume,
  delete_volume, validate_volume_capabilities,
}
use csi_driver_nfs_export.Driver.{
  Driver, get_plugin_info, probe, get_plugin_capabilities, controller_get_capabilities,
  node_get_info, node_get_capabilities,
}
use csi_driver_nfs_export.Controller.Unimplemented.{
  controller_publish_volume, controller_unpublish_volume, controller_get_volume, list_volumes,
  get_capacity, create_snapshot, delete_snapshot, list_snapshots, controller_expand_volume,
}
use csi_driver_nfs_export.Node.Unimplemented.{
  node_stage_volume, node_unstage_volume, node_expand_volume,
}
use csi_driver_nfs_export.Node.Exports.{publish_volume-Makes}
use csi_driver_nfs_export.Node.Publish.{PublishRequest, publish_volume}
use csi_driver_nfs_export.Node.Statistics.{volume_stats-Does}
use csi_driver_nfs_export.Node.Stats.{volume_stats}
use csi_driver_nfs_export.Node.Unpublish.{
  is_in_use, delete_export, release_unused, unpublish_volume,
}
use csi_driver_nfs_export.Base.Entries.{Entries}
use csi_driver_nfs_export.Pods.Waiting.{wait_for_pod_running-Does}
use csi_driver_nfs_export.Server.{ServiceKind, identity, controller, node}
use csi_driver_nfs_export.Service.{answer, service_of}
use csi_driver_nfs_export.Service.Requests.{Request}
use csi_driver_nfs_export.Service.Roles.{
  Rule, Attempt, controller_role, node_role, attempt_of, covers,
}

-- The role of the pod that runs a service; the identity service is run by both, and makes no call.
abbrev pub role_of : ServiceKind → List Rule
role_of identity = []
role_of controller = controller_role
role_of node = node_role

-- Some rule covers what the call asks for.
abbrev pub is_granted : List Rule → Call → Bool
is_granted role c = elim (attempt_of c) [ none ↦ true | some a ↦ any (λ r. covers r a) role ]

abbrev IsGranted : List Rule → Call → Type 0
IsGranted role c = is_granted role c ≡ true

-- The node's role grants every call that the driver knows.
call-IsGranted : (c : Call) → IsGranted node_role c
unfolding any
call-IsGranted (Call.get_pvc ns name) = refl
call-IsGranted _ = refl

module _ (e : Env) where
  create_volume-Granted :
      (req : CreateRequest) → Makes (IsGranted controller_role) (create_volume e req)
  unfolding create_volume provision choose_class ensure_data_pvc any
  create_volume-Granted req = search makes_rules depth 20

  delete_volume-Granted : (id : String) → Makes (IsGranted controller_role) (delete_volume e id)
  unfolding delete_volume get_pv_by_id any
  delete_volume-Granted id = search makes_rules depth 20

  publish_volume-Granted :
      PollsAsDocumented e
      → (permissions : ℕ) (req : PublishRequest)
      → Makes (IsGranted node_role) (publish_volume e permissions req)
  publish_volume-Granted polls permissions req = record {
    extends = λ h.
        Extends-mono (λ c _. call-IsGranted c)
          ((publish_volume-Makes e "" polls permissions req).extends h);
  }

  volume_stats-Granted : (id path : String) → Makes (IsGranted node_role) (volume_stats e id path)
  volume_stats-Granted id path = record {
    extends = λ h. Extends-mono (λ c _. call-IsGranted c) ((volume_stats-Does path e id).makes h);
  }

  module _ (polls : PollsAsDocumented e) where
    delete_export-Granted :
        (id : String) (attributes : Entries)
        → Makes (IsGranted node_role) (delete_export e id attributes)
    unfolding delete_export any
    delete_export-Granted id attributes =
        let waits = Does-Makes (
          wait_for_pod_running-Does e polls {P = IsGranted node_role} {Q = λ c. Unit} _ (id <> "-0")
            300 refl) in
        Makes-bind _ _ (Makes-call _ _ refl)
          λ _. Makes-bind _ _ (Makes-call _ _ refl) λ _. Makes-bind _ _ waits λ _. Makes-pure tt

    unpublish_volume-Granted :
        (id target : String) → Makes (IsGranted node_role) (unpublish_volume e id target)
    unfolding unpublish_volume release_unused is_in_use get_pv_by_id any
    unpublish_volume-Granted id target = search (makes_rules, delete_export-Granted) depth 20

    answer-Granted :
        (n : Driver) (req : Request) → Makes (IsGranted (role_of (service_of req))) (answer e n req)
    unfolding get_plugin_info probe get_plugin_capabilities controller_get_capabilities
        validate_volume_capabilities node_get_info node_get_capabilities controller_publish_volume
        controller_unpublish_volume controller_get_volume list_volumes get_capacity create_snapshot
        delete_snapshot list_snapshots controller_expand_volume node_stage_volume
        node_unstage_volume node_expand_volume
    answer-Granted n Request.get_plugin_info = search makes_rules
    answer-Granted n Request.probe = search makes_rules
    answer-Granted n Request.get_plugin_capabilities = search makes_rules
    answer-Granted n (Request.create_volume req) =
        Makes-bind _ _ (create_volume-Granted req) λ _. Makes-pure _
    answer-Granted n (Request.delete_volume id) =
        Makes-bind _ _ (delete_volume-Granted id) λ _. Makes-pure _
    answer-Granted n (Request.validate_volume_capabilities id capabilities) = search makes_rules
    answer-Granted n Request.controller_get_capabilities = search makes_rules
    answer-Granted n Request.controller_publish_volume = search makes_rules
    answer-Granted n Request.controller_unpublish_volume = search makes_rules
    answer-Granted n Request.controller_get_volume = search makes_rules
    answer-Granted n Request.list_volumes = search makes_rules
    answer-Granted n Request.get_capacity = search makes_rules
    answer-Granted n Request.create_snapshot = search makes_rules
    answer-Granted n Request.delete_snapshot = search makes_rules
    answer-Granted n Request.list_snapshots = search makes_rules
    answer-Granted n Request.controller_expand_volume = search makes_rules
    answer-Granted n (Request.publish_volume req) =
        Makes-bind _ _ (publish_volume-Granted polls n.mount_permissions req) λ _. Makes-pure _
    answer-Granted n (Request.unpublish_volume id target) =
        Makes-bind _ _ (unpublish_volume-Granted id target) λ _. Makes-pure _
    answer-Granted n (Request.volume_stats id path) =
        Makes-bind _ _ (volume_stats-Granted id path) λ _. Makes-pure _
    answer-Granted n Request.node_get_info = search makes_rules
    answer-Granted n Request.node_get_capabilities = search makes_rules
    answer-Granted n Request.node_stage_volume = search makes_rules
    answer-Granted n Request.node_unstage_volume = search makes_rules
    answer-Granted n Request.node_expand_volume = search makes_rules

-- The call stays on the node, or the authorizer lets it through.
abbrev pub is_authorized : (List Rule → Attempt → Bool) → List Rule → Call → Bool
is_authorized authorizes role c = elim (attempt_of c) [ none ↦ true | some a ↦ authorizes role a ]

authorized :
    (authorizes : List Rule → Attempt → Bool)
    → ((role : List Rule) (a : Attempt)
        → any (λ r. covers r a) role ≡ true
        → authorizes role a ≡ true)
    → (role : List Rule) (c : Call) → IsGranted role c
    → is_authorized authorizes role c ≡ true
authorized authorizes grants role c granted = elim (Option-cases (attempt_of c)) [
  | inl local ↦ rw (local, is_authorized) refl
  | inr (a, asks) ↦ rw (asks, is_authorized) (grants role a (rw (asks, is_granted) at granted))
]

-- The roles of charts/templates/rbac.yaml are enough. The authorizer of the API server lets through
-- what some rule of a role covers, and the polling loop does what its documentation says. Then with
-- the controller's role for the requests to the controller service, the node's role for those to the
-- node service, and none for those to the identity service, no call that the driver makes for any
-- request is held back, on any branch.
pub calls_authorized :
    (e : Env) (polls : PollsAsDocumented e) (authorizes : List Rule → Attempt → Bool)
    → ((role : List Rule) (a : Attempt)
        → any (λ r. covers r a) role ≡ true
        → authorizes role a ≡ true)
    → (n : Driver) (req : Request) (h : History)
    → Extends
        (λ c. is_authorized authorizes (role_of (service_of req)) c ≡ true)
        h
        (calls (answer e n req h))
calls_authorized e polls authorizes grants n req h =
    Extends-mono (λ c granted. authorized authorizes grants _ c granted)
      ((answer-Granted e polls n req).extends h)
