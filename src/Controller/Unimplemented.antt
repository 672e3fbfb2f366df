-- ===== src/Controller/Unimplemented.antt =====
-- The RPCs of the controller service that controllerserver.go refuses.
use csi_driver_nfs_export.Api.Exec.{Exec, raise, unimplemented, no_text}

unfoldable pub controller_publish_volume : Exec (Unit {0})
controller_publish_volume = raise unimplemented no_text

unfoldable pub controller_unpublish_volume : Exec (Unit {0})
controller_unpublish_volume = raise unimplemented no_text

unfoldable pub controller_get_volume : Exec (Unit {0})
controller_get_volume = raise unimplemented no_text

unfoldable pub list_volumes : Exec (Unit {0})
list_volumes = raise unimplemented no_text

unfoldable pub get_capacity : Exec (Unit {0})
get_capacity = raise unimplemented no_text

unfoldable pub create_snapshot : Exec (Unit {0})
create_snapshot = raise unimplemented no_text

unfoldable pub delete_snapshot : Exec (Unit {0})
delete_snapshot = raise unimplemented no_text

unfoldable pub list_snapshots : Exec (Unit {0})
list_snapshots = raise unimplemented no_text

unfoldable pub controller_expand_volume : Exec (Unit {0})
controller_expand_volume = raise unimplemented no_text
