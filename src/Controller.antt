-- ===== src/Controller.antt =====
-- pkg/nfsexport/controllerserver.go: the controller service, and `getPvById` of k8utils.go.
pub mod Parameters
pub mod Volume
pub mod Unimplemented
pub mod Checks
pub mod Effects
pub mod Created
pub mod Succeeded
pub mod Order
pub mod Unordered
pub mod Deleted
pub mod Store
pub mod Refinement
pub mod Lasting
pub mod Leaked
pub mod Shared
mod Tests
mod StoreTests
mod SharedTests
