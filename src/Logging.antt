-- ===== src/Logging.antt =====
-- `logGRPC` of pkg/nfsexport/utils.go, the interceptor around every remote procedure call. The
-- handler, protosanitizer.StripSecrets and the texts of errors are parameters.
mod Tests
use csi_driver_nfs_export.Base.{String, ℕ, List, [], ◌∷◌, Option, none, some}
use csi_driver_nfs_export.Endpoint.{get_log_level}

pub data LogText : Type 0 where
  called requested responded failed : String → LogText

-- klog.V(level).Infof and klog.Errorf
pub data LogLine : Type 0 where
  info : ℕ → LogText → LogLine
  error : LogText → LogLine

-- The two results of a handler.
pub record Answer (Response Problem : Type 0) : Type 0 where
  pub response : Response
  pub problem : Option Problem

module _ {Response Problem : Type 0} (strip_response : Response → String)
    (message : Problem → String) where
  unfoldable pub result_line : ℕ → Answer Response Problem → LogLine
  result_line level a = elim a.problem [
    | some err ↦ error (failed (message err))
    | none ↦ info level (responded (strip_response a.response))
  ]

module _ {Request Response Problem World : Type 0} (strip_request : Request → String)
    (strip_response : Response → String) (message : Problem → String) where
  -- The handler runs on the world and changes it; the lines are in the order of the calls of klog.
  unfoldable pub log_grpc :
      String
      → (Request → World → Answer Response Problem × World)
      → Request
      → World
      → (Answer Response Problem × World) × List LogLine
  unfolding get_log_level result_line
  log_grpc method handler req w =
      let level = get_log_level method in
      let (a, w') = handler req w in
      (
        (a, w'),
        info level (called method)
            ∷ info level (requested (strip_request req))
            ∷ result_line strip_response message level a
            ∷ [],
      )
