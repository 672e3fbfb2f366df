-- ===== src/Logging/Tests.antt =====
-- Runs of the interceptor: a call that fails, and one of the two methods that are logged at a higher
-- level.
use csi_driver_nfs_export.Base.{String, ℕ, ◌+◌, [], ◌∷◌, none, some, ◌≡◌, refl}
use csi_driver_nfs_export.Endpoint.{get_log_level}
use csi_driver_nfs_export.Logging.{
  Answer, called, requested, responded, failed, error, info, result_line, log_grpc,
}

-- A name and a secret.
abbrev Request : Type 0
Request = String × String

abbrev strip : Request → String
strip r = r.0

-- Answers with the request itself, and counts.
abbrev echo : Request → ℕ → Answer Request String × ℕ
echo r w = (record { response = r; problem = none }, w + 1)

abbrev refuse : Request → ℕ → Answer Request String × ℕ
refuse r w = (record { response = r; problem = some "denied" }, w)

probe_logged : log_grpc strip strip (λ s. s) "/csi.v1.Identity/Probe" echo ("nfs-1", "key") 0 ≡ (
  (record { response = ("nfs-1", "key"); problem = none }, 1),
  info 8 (called "/csi.v1.Identity/Probe")
      ∷ info 8 (requested "nfs-1")
      ∷ info 8 (responded "nfs-1")
      ∷ [],
)
unfolding log_grpc get_log_level result_line
probe_logged = refl

failure_logged :
    log_grpc strip strip (λ s. s) "/csi.v1.Node/NodePublishVolume" refuse ("nfs-1", "key") 0 ≡ (
      (record { response = ("nfs-1", "key"); problem = some "denied" }, 0),
      info 2 (called "/csi.v1.Node/NodePublishVolume")
          ∷ info 2 (requested "nfs-1")
          ∷ error (failed "denied")
          ∷ [],
    )
unfolding log_grpc get_log_level result_line
failure_logged = refl
