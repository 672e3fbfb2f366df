-- ===== src/Node.antt =====
-- pkg/nfsexport/nodeserver.go: the node service.
pub mod Attributes
pub mod Export
pub mod Mount
pub mod Mounted
pub mod Permissions
pub mod Publish
pub mod Published
pub mod Established
pub mod Order
pub mod Unordered
pub mod Refused
pub mod Statistics
pub mod Reported
pub mod Context
pub mod Composed
pub mod Unpublish
pub mod Unpublished
pub mod Panics
pub mod Outcome
pub mod Exports
pub mod Store
pub mod Lasting
pub mod Namespace
pub mod Ended
pub mod Served
pub mod Able
pub mod Mounting
pub mod Attempt
pub mod Recovered
pub mod Arrived
pub mod Bounded
pub mod Termination
pub mod Stats
pub mod Unimplemented
mod Tests
mod RequestTests
mod LastingTests
mod TerminationTests
