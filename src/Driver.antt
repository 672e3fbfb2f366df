-- ===== src/Driver.antt =====
-- pkg/nfsexport/nfsexport.go, identityserver.go and the parts of nodeserver.go and
-- controllerserver.go that read the driver's record.
use csi_driver_nfs_export.Base.{String, ◌++◌, ℕ, Bool, true, List, [], ◌∷◌, ◌==◌}
use csi_driver_nfs_export.Api.Exec.{
  Exec, pure, ◌>>◌, raise_if, unavailable, driver_unnamed, driver_unversioned,
}

-- The capabilities of the CSI specification that the driver names.
pub data ControllerRpc : Type 0 where
  create_delete_volume controller_multi_writer : ControllerRpc

pub data NodeRpc : Type 0 where
  get_volume_stats node_multi_writer rpc_unknown : NodeRpc

-- csi.ControllerServiceCapability and csi.NodeServiceCapability, around an RPC type
pub data ControllerCapability : Type 0 where
  controller_rpc : ControllerRpc → ControllerCapability

pub data NodeCapability : Type 0 where
  node_rpc : NodeRpc → NodeCapability

pub record DriverOptions : Type 0 where
  pub node_id : String
  pub driver_name : String
  pub endpoint : String
  pub mount_permissions : ℕ
  pub working_mount_dir : String

pub record Driver : Type 0 where
  pub name : String
  pub node_id : String
  pub version : String
  pub endpoint : String
  pub mount_permissions : ℕ
  pub working_mount_dir : String
  pub cscap : List ControllerCapability
  pub nscap : List NodeCapability

-- The loops of the two methods that add capabilities, on what was appended before.
unfoldable pub controller_capabilities :
    List ControllerRpc → List ControllerCapability → List ControllerCapability
controller_capabilities [] csc = csc
controller_capabilities (c ∷ cl) csc = controller_capabilities cl (csc ++ (controller_rpc c ∷ []))

unfoldable pub node_capabilities : List NodeRpc → List NodeCapability → List NodeCapability
node_capabilities [] nsc = nsc
node_capabilities (n ∷ nl) nsc = node_capabilities nl (nsc ++ (node_rpc n ∷ []))

unfoldable pub add_controller_capabilities : List ControllerRpc → Driver → Driver
unfolding controller_capabilities
add_controller_capabilities cl n = record n { cscap = controller_capabilities cl [] }

unfoldable pub add_node_capabilities : List NodeRpc → Driver → Driver
unfolding node_capabilities
add_node_capabilities nl n = record n { nscap = node_capabilities nl [] }

-- `NewDriver`; the version is the build's `driverVersion`.
unfoldable pub new_driver : String → DriverOptions → Driver
unfolding add_controller_capabilities add_node_capabilities
new_driver driver_version o =
    let n : Driver = record {
      name = o.driver_name;
      node_id = o.node_id;
      version = driver_version;
      endpoint = o.endpoint;
      mount_permissions = o.mount_permissions;
      working_mount_dir = o.working_mount_dir;
      cscap = [];
      nscap = [];
    } in
    add_node_capabilities (get_volume_stats ∷ node_multi_writer ∷ rpc_unknown ∷ [])
      (add_controller_capabilities (create_delete_volume ∷ controller_multi_writer ∷ []) n)

-- csi.GetPluginInfoResponse
pub record PluginInfo : Type 0 where
  pub name : String
  pub vendor_version : String

unfoldable pub get_plugin_info : Driver → Exec PluginInfo
get_plugin_info d = do
  raise_if (d.name == "") unavailable driver_unnamed
  raise_if (d.version == "") unavailable driver_unversioned
  pure (record { name = d.name; vendor_version = d.version })

-- `Probe`: ready, always.
unfoldable pub probe : Exec Bool
probe = pure true

-- csi.PluginCapability_Service
pub data PluginService : Type 0 where
  controller_service : PluginService

unfoldable pub get_plugin_capabilities : Exec (List PluginService)
get_plugin_capabilities = pure (controller_service ∷ [])

unfoldable pub node_get_info : Driver → Exec String
node_get_info d = pure d.node_id

unfoldable pub node_get_capabilities : Driver → Exec (List NodeCapability)
node_get_capabilities d = pure d.nscap

unfoldable pub controller_get_capabilities : Driver → Exec (List ControllerCapability)
controller_get_capabilities d = pure d.cscap
