-- ===== src/Node/Unimplemented.antt =====
-- The RPCs of the node service that nodeserver.go refuses.
use csi_driver_nfs_export.Api.Exec.{Exec, raise, unimplemented, no_text}

unfoldable pub node_stage_volume : Exec (Unit {0})
node_stage_volume = raise unimplemented no_text

unfoldable pub node_unstage_volume : Exec (Unit {0})
node_unstage_volume = raise unimplemented no_text

unfoldable pub node_expand_volume : Exec (Unit {0})
node_expand_volume = raise unimplemented no_text
