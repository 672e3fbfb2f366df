-- ===== src/Endpoint/Tests.antt =====
-- Runs of the theorems on endpoints.
use csi_driver_nfs_export.Base.{String, ◌<>◌, false, ◌==◌, ◌≡◌, refl, inl, ◌⊎◌}
use csi_driver_nfs_export.Endpoint.{endpoint, invalid, parse_endpoint}
use csi_driver_nfs_export.Endpoint.Range.{parse_endpoint_total}
use csi_driver_nfs_export.Endpoint.Unix.{parse_endpoint_made}

-- The scheme keeps the case of its letters.
parsed : parse_endpoint "Unix://tmp/csi.sock" ≡ endpoint "Unix" "tmp/csi.sock"
unfolding parse_endpoint
parsed = refl

parse_endpoint_total_example :
    (parse_endpoint "Unix://tmp/csi.sock" ≡ invalid "Unix://tmp/csi.sock")
    ⊎ ((proto addr : String) × (parse_endpoint "Unix://tmp/csi.sock" ≡ endpoint proto addr)
        × (proto <> "://" <> addr ≡ "Unix://tmp/csi.sock")
        × ((addr == "") ≡ false))
parse_endpoint_total_example = parse_endpoint_total "Unix://tmp/csi.sock"

parse_endpoint_made_example :
    parse_endpoint ("unix" <> "://" <> "tmp/csi.sock") ≡ endpoint "unix" "tmp/csi.sock"
parse_endpoint_made_example = parse_endpoint_made "unix" "tmp/csi.sock" (inl refl) refl
