-- ===== src/Endpoint.antt =====
-- `ParseEndpoint` and `getLogLevel` of pkg/nfsexport/utils.go.
pub mod Parsing
pub mod Range
pub mod Unix
mod Tests
use csi_driver_nfs_export.Base.{String, ℕ, Bool, ◌||◌, none, some, ◌==◌, if◌then◌else◌}
use csi_driver_nfs_export.Base.Strings.{to_lower, has_prefix, cut}

-- The two results, the error with the endpoint in it, or the panic of `s[1]`.
pub data Endpoint : Type 0 where
  endpoint : String → String → Endpoint
  invalid : String → Endpoint
  out_of_range : Endpoint

unfoldable pub has_scheme : String → Bool
unfolding to_lower has_prefix
has_scheme ep = has_prefix (to_lower ep) "unix://" || has_prefix (to_lower ep) "tcp://"

unfoldable pub parse_endpoint : String → Endpoint
unfolding has_scheme cut
parse_endpoint ep =
    if has_scheme ep
    then elim (cut ep "://") [
      | none ↦ out_of_range
      | some (proto, addr) ↦ if addr == "" then invalid ep else endpoint proto addr
    ]
    else invalid ep

unfoldable pub get_log_level : String → ℕ
get_log_level method =
    if method == "/csi.v1.Identity/Probe"
      || method == "/csi.v1.Node/NodeGetCapabilities"
      || method == "/csi.v1.Node/NodeGetVolumeStats"
    then 8
    else 2
