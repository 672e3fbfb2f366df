-- ===== src/Api.antt =====
-- What the driver talks to: the Kubernetes objects, the calls it makes, the environment that
-- answers them, and the monad of its handlers.
pub mod Objects
pub mod Calls
pub mod Exec
pub mod Client
pub mod Rules
pub mod Makes
pub mod Takes
pub mod Lands
