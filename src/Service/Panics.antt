-- ===== src/Service/Panics.antt =====
-- When the driver panics.
use csi_driver_nfs_export.Base.{
  String, ℕ, none, ◌≡◌, ◌==◌, ◌≢◌, ◌↔◌, inl, inr, Bool-cases, Option-cases, refl, [], ◌∷◌,
}
use csi_driver_nfs_export.Base.Entries.{Entries}
use csi_driver_nfs_export.Api.Objects.{Pv}
use csi_driver_nfs_export.Api.Calls.{History}
use csi_driver_nfs_export.Api.Exec.{Outcome, ok, err, panic, Exec, result, continue, pure, ◌>>=◌}
use csi_driver_nfs_export.Api.Client.{Env, PollsAsDocumented}
use csi_driver_nfs_export.Api.Rules.{EndsIn, does_rules}
use csi_driver_nfs_export.Controller.Deleted.{delete_volume_ends}
use csi_driver_nfs_export.Controller.Parameters.{Parameters, set_parameter, read_parameters}
use csi_driver_nfs_export.Controller.Unimplemented.{
  controller_publish_volume, controller_unpublish_volume, controller_get_volume, list_volumes,
  get_capacity, create_snapshot, delete_snapshot, list_snapshots, controller_expand_volume,
}
use csi_driver_nfs_export.Controller.Volume.{
  CreateRequest, choose_class, ensure_data_pvc, provision, create_volume, delete_volume,
  validate_volume_capabilities,
}
use csi_driver_nfs_export.Driver.{
  Driver, get_plugin_info, probe, get_plugin_capabilities, controller_get_capabilities,
  node_get_info, node_get_capabilities,
}
use csi_driver_nfs_export.Node.Exports.{complete_parts}
use csi_driver_nfs_export.Node.Panics.{DoesNotPanic, ends_without, unpublish_panics_exactly}
use csi_driver_nfs_export.Node.Publish.{PublishRequest, publish_volume}
use csi_driver_nfs_export.Node.Published.{publish_volume-Does}
use csi_driver_nfs_export.Node.Refused.{is_complete, publish_volume_refuses}
use csi_driver_nfs_export.Node.Statistics.{volume_stats-Does}
use csi_driver_nfs_export.Node.Stats.{volume_stats}
use csi_driver_nfs_export.Node.Unimplemented.{
  node_stage_volume, node_unstage_volume, node_expand_volume,
}
use csi_driver_nfs_export.Node.Unpublish.{unpublish_volume}
use csi_driver_nfs_export.Node.Unpublished.{IsReleased}
use csi_driver_nfs_export.Params.{key_of}
use csi_driver_nfs_export.Service.{Response, answer}
use csi_driver_nfs_export.Service.Requests.{Request}

read_parameters_ends : (m : Entries) (p : Parameters) → EndsIn (λ c. Unit) (read_parameters m p)
unfolding read_parameters
read_parameters_ends [] p = tt
read_parameters_ends ((k, v) ∷ m) p = elim (Option-cases (set_parameter (key_of k) v p)) [
  | inl bad ↦ rw (bad, EndsIn, read_parameters) tt
  | inr (p', set) ↦ rw (set, EndsIn, read_parameters) (read_parameters_ends m p')
]

continued_panics :
    {A B : Type 0} (o : Outcome A) (f : A → B) (h : History)
    → result (continue o (λ a. pure (f a)) h) ≡ panic
    → o ≡ panic
unfolding pure
continued_panics (ok a) f h q = cc
continued_panics (err c r) f h q = cc
continued_panics panic f h q = refl

-- The answer is made from the method's result.
answered_panics :
    {A : Type 0} (m : Exec A) (f : A → Response) (h : History)
    → result ((m >>= λ a. pure (f a)) h) ≡ panic
    → result (m h) ≡ panic
unfolding ◌>>=◌ pure
answered_panics m f h q = continued_panics (m h).0 f (m h).1 q

delete_volume_steady : (e : Env) (id : String) (h : History) → result (delete_volume e id h) ≢ panic
delete_volume_steady e id h =
    let (empty, named) = delete_volume_ends e id h in
    elim (Bool-cases (id == "")) [
      | inl q ↦ rw (empty q) (λ wrong. cc)
      | inr q ↦ elim (named q) [
        | inl (_, same) ↦ rw same (λ wrong. cc)
        | inr (_, _, _, _, _, _, same) ↦ rw same (λ wrong. cc)
      ]
    ]

module _ (e : Env) (polls : PollsAsDocumented e) where
  create_volume-DoesNotPanic : (req : CreateRequest) → DoesNotPanic (create_volume e req)
  unfolding create_volume provision choose_class ensure_data_pvc
  create_volume-DoesNotPanic req = search (does_rules, read_parameters_ends) depth 20

  publish_volume_steady :
      (permissions : ℕ) (req : PublishRequest) (h : History)
      → result (publish_volume e permissions req h) ≢ panic
  publish_volume_steady permissions req h = elim (Bool-cases (is_complete permissions req)) [
    | inl complete ↦
        let (given, a, has, read) = complete_parts permissions req complete in
        ends_without (publish_volume-Does e polls req a permissions given has read)
    | inr incomplete ↦
        let (r, q) = publish_volume_refuses e permissions req h incomplete in rw q (λ wrong. cc)
  ]

steady_all : {A : Type 0} (m : Exec A) → DoesNotPanic m → (h : History) → result (m h) ≢ panic
steady_all m d h = ends_without d

panics_through :
    {A : Type 0} (m : Exec A) (f : A → Response) {h h' : History}
    → m h ≡ (panic, h')
    → result ((m >>= λ a. pure (f a)) h) ≡ panic
unfolding ◌>>=◌
panics_through m f q = rw q

never : {A : Type 0} {o : Outcome A} → o ≢ panic → (o ≡ panic) ↔ ⊥
never steady = (λ q. steady q, λ no. absurd no)

-- The request is a `NodeUnpublishVolume` whose arguments are given, the target was unmounted, and the
-- volume was found, and is bound to no claim.
abbrev pub IsOnUnbound : Env → Request → History → Type 0
IsOnUnbound e (Request.unpublish_volume id target) h =
    (pv : Pv) × IsReleased e id target pv h × (pv.claim_ref ≡ none)
IsOnUnbound e _ h = ⊥

-- If the polling loop does what its documentation says: of all requests to the three services, the
-- driver panics on exactly those `NodeUnpublishVolume`s whose arguments are given, whose target was
-- unmounted, and whose volume was found and is bound to no claim.
pub answer_panics_exactly :
    (e : Env) (polls : PollsAsDocumented e) (n : Driver) (req : Request) (h : History)
    → (result (answer e n req h) ≡ panic) ↔ IsOnUnbound e req h
unfolding get_plugin_info probe get_plugin_capabilities controller_get_capabilities
    validate_volume_capabilities node_get_info node_get_capabilities controller_publish_volume
    controller_unpublish_volume controller_get_volume list_volumes get_capacity create_snapshot
    delete_snapshot list_snapshots controller_expand_volume node_stage_volume node_unstage_volume
    node_expand_volume
answer_panics_exactly e polls n Request.get_plugin_info h =
    never (steady_all (answer e n Request.get_plugin_info) (search does_rules depth 8) h)
answer_panics_exactly e polls n Request.probe h =
    never (steady_all (answer e n Request.probe) (search does_rules depth 8) h)
answer_panics_exactly e polls n Request.get_plugin_capabilities h =
    never (steady_all (answer e n Request.get_plugin_capabilities) (search does_rules depth 8) h)
answer_panics_exactly e polls n (Request.create_volume req) h = never λ q.
    ends_without (create_volume-DoesNotPanic e polls req)
      (answered_panics (create_volume e req) _ h q)
answer_panics_exactly e polls n (Request.delete_volume id) h =
    never λ q. delete_volume_steady e id h (answered_panics (delete_volume e id) _ h q)
answer_panics_exactly e polls n (Request.validate_volume_capabilities id capabilities) h = never (
    steady_all (answer e n (Request.validate_volume_capabilities id capabilities))
      (search does_rules depth 8) h)
answer_panics_exactly e polls n Request.controller_get_capabilities h =
    never
      (steady_all (answer e n Request.controller_get_capabilities) (search does_rules depth 8) h)
answer_panics_exactly e polls n Request.controller_publish_volume h =
    never (steady_all (answer e n Request.controller_publish_volume) (search does_rules depth 8) h)
answer_panics_exactly e polls n Request.controller_unpublish_volume h =
    never
      (steady_all (answer e n Request.controller_unpublish_volume) (search does_rules depth 8) h)
answer_panics_exactly e polls n Request.controller_get_volume h =
    never (steady_all (answer e n Request.controller_get_volume) (search does_rules depth 8) h)
answer_panics_exactly e polls n Request.list_volumes h =
    never (steady_all (answer e n Request.list_volumes) (search does_rules depth 8) h)
answer_panics_exactly e polls n Request.get_capacity h =
    never (steady_all (answer e n Request.get_capacity) (search does_rules depth 8) h)
answer_panics_exactly e polls n Request.create_snapshot h =
    never (steady_all (answer e n Request.create_snapshot) (search does_rules depth 8) h)
answer_panics_exactly e polls n Request.delete_snapshot h =
    never (steady_all (answer e n Request.delete_snapshot) (search does_rules depth 8) h)
answer_panics_exactly e polls n Request.list_snapshots h =
    never (steady_all (answer e n Request.list_snapshots) (search does_rules depth 8) h)
answer_panics_exactly e polls n Request.controller_expand_volume h =
    never (steady_all (answer e n Request.controller_expand_volume) (search does_rules depth 8) h)
answer_panics_exactly e polls n (Request.publish_volume req) h = never λ q.
    publish_volume_steady e polls n.mount_permissions req h
      (answered_panics (publish_volume e n.mount_permissions req) _ h q)
answer_panics_exactly e polls n (Request.unpublish_volume id target) h =
    let (only, panics) = unpublish_panics_exactly e polls id target h in
    (
      λ q. only (answered_panics (unpublish_volume e id target) _ h q),
      λ (pv, released, unbound).
          panics_through (unpublish_volume e id target) _ (panics pv released unbound),
    )
answer_panics_exactly e polls n (Request.volume_stats id path) h =
    never λ q.
      ends_without (volume_stats-Does path e id) (answered_panics (volume_stats e id path) _ h q)
answer_panics_exactly e polls n Request.node_get_info h =
    never (steady_all (answer e n Request.node_get_info) (search does_rules depth 8) h)
answer_panics_exactly e polls n Request.node_get_capabilities h =
    never (steady_all (answer e n Request.node_get_capabilities) (search does_rules depth 8) h)
answer_panics_exactly e polls n Request.node_stage_volume h =
    never (steady_all (answer e n Request.node_stage_volume) (search does_rules depth 8) h)
answer_panics_exactly e polls n Request.node_unstage_volume h =
    never (steady_all (answer e n Request.node_unstage_volume) (search does_rules depth 8) h)
answer_panics_exactly e polls n Request.node_expand_volume h =
    never (steady_all (answer e n Request.node_expand_volume) (search does_rules depth 8) h)
