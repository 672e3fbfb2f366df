-- ===== src/Service.antt =====
-- The three services together: every request that the driver can get, and the method that answers it.
pub mod Requests
pub mod Roles
pub mod Granted
pub mod Panics
mod Tests
use csi_driver_nfs_export.Base.{String, Bool, List}
use csi_driver_nfs_export.Api.Exec.{Exec, pure, ◌>>=◌}
use csi_driver_nfs_export.Api.Client.{Env}
use csi_driver_nfs_export.Controller.Volume.{
  Capability, Volume, create_volume, delete_volume, validate_volume_capabilities,
}
use csi_driver_nfs_export.Controller.Unimplemented.{
  controller_publish_volume, controller_unpublish_volume, controller_get_volume, list_volumes,
  get_capacity, create_snapshot, delete_snapshot, list_snapshots, controller_expand_volume,
}
use csi_driver_nfs_export.Driver.{
  Driver, PluginInfo, PluginService, ControllerCapability, NodeCapability, get_plugin_info, probe,
  get_plugin_capabilities, node_get_info, node_get_capabilities, controller_get_capabilities,
}
use csi_driver_nfs_export.Node.Publish.{publish_volume}
use csi_driver_nfs_export.Node.Stats.{Usage, volume_stats}
use csi_driver_nfs_export.Node.Unimplemented.{
  node_stage_volume, node_unstage_volume, node_expand_volume,
}
use csi_driver_nfs_export.Node.Unpublish.{unpublish_volume}
use csi_driver_nfs_export.Service.Requests.{Request}
use csi_driver_nfs_export.Server.{ServiceKind, identity, controller, node}

pub data Response : Type 0 where
  plugin_info : PluginInfo → Response
  ready : Bool → Response
  plugin_services : List PluginService → Response
  created : Volume → Response
  confirmed : List Capability → Response
  controller_abilities : List ControllerCapability → Response
  usages : List Usage → Response
  node_info : String → Response
  node_abilities : List NodeCapability → Response
  empty : Response

abbrev pub service_of : Request → ServiceKind
service_of Request.get_plugin_info = identity
service_of Request.probe = identity
service_of Request.get_plugin_capabilities = identity
service_of (Request.create_volume req) = controller
service_of (Request.delete_volume id) = controller
service_of (Request.validate_volume_capabilities id capabilities) = controller
service_of Request.controller_get_capabilities = controller
service_of Request.controller_publish_volume = controller
service_of Request.controller_unpublish_volume = controller
service_of Request.controller_get_volume = controller
service_of Request.list_volumes = controller
service_of Request.get_capacity = controller
service_of Request.create_snapshot = controller
service_of Request.delete_snapshot = controller
service_of Request.list_snapshots = controller
service_of Request.controller_expand_volume = controller
service_of _ = node

abbrev answered : {A : Type 0} → Exec A → (A → Response) → Exec Response
answered m f = m >>= λ a. pure (f a)

abbrev pub answer : Env → Driver → Request → Exec Response
answer e n Request.get_plugin_info = answered (get_plugin_info n) plugin_info
answer e n Request.probe = answered probe ready
answer e n Request.get_plugin_capabilities = answered get_plugin_capabilities plugin_services
answer e n (Request.create_volume req) = answered (create_volume e req) created
answer e n (Request.delete_volume id) = answered (delete_volume e id) (λ _. empty)
answer e n (Request.validate_volume_capabilities id capabilities) =
    answered (validate_volume_capabilities id capabilities) confirmed
answer e n Request.controller_get_capabilities =
    answered (controller_get_capabilities n) controller_abilities
answer e n Request.controller_publish_volume = answered controller_publish_volume (λ _. empty)
answer e n Request.controller_unpublish_volume = answered controller_unpublish_volume (λ _. empty)
answer e n Request.controller_get_volume = answered controller_get_volume (λ _. empty)
answer e n Request.list_volumes = answered list_volumes (λ _. empty)
answer e n Request.get_capacity = answered get_capacity (λ _. empty)
answer e n Request.create_snapshot = answered create_snapshot (λ _. empty)
answer e n Request.delete_snapshot = answered delete_snapshot (λ _. empty)
answer e n Request.list_snapshots = answered list_snapshots (λ _. empty)
answer e n Request.controller_expand_volume = answered controller_expand_volume (λ _. empty)
answer e n (Request.publish_volume req) =
    answered (publish_volume e n.mount_permissions req) (λ _. empty)
answer e n (Request.unpublish_volume id target) =
    answered (unpublish_volume e id target) (λ _. empty)
answer e n (Request.volume_stats id path) = answered (volume_stats e id path) usages
answer e n Request.node_get_info = answered (node_get_info n) node_info
answer e n Request.node_get_capabilities = answered (node_get_capabilities n) node_abilities
answer e n Request.node_stage_volume = answered node_stage_volume (λ _. empty)
answer e n Request.node_unstage_volume = answered node_unstage_volume (λ _. empty)
answer e n Request.node_expand_volume = answered node_expand_volume (λ _. empty)
