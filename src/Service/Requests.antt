-- ===== src/Service/Requests.antt =====
-- The requests that the driver's three services can get.
use csi_driver_nfs_export.Base.{String, List}
use csi_driver_nfs_export.Controller.Volume.{Capability, CreateRequest}
use csi_driver_nfs_export.Node.Publish.{PublishRequest}

-- The requests of the CSI specification, with the fields that the driver reads.
pub data Request : Type 0 where
  get_plugin_info probe get_plugin_capabilities : Request
  create_volume : CreateRequest → Request
  delete_volume : String → Request
  validate_volume_capabilities : String → List Capability → Request
  controller_get_capabilities : Request
  controller_publish_volume controller_unpublish_volume controller_get_volume list_volumes
        get_capacity create_snapshot delete_snapshot list_snapshots controller_expand_volume :
      Request
  publish_volume : PublishRequest → Request
  unpublish_volume : String → String → Request
  volume_stats : String → String → Request
  node_get_info node_get_capabilities : Request
  node_stage_volume node_unstage_volume node_expand_volume : Request
