-- ===== src/Server.antt =====
-- pkg/nfsexport/server.go: `serve` of the gRPC server, as the sequence of what it does up to its end.
pub mod Machine
pub mod Safety
pub mod Stopping
mod Tests
use csi_driver_nfs_export.Base.{
  String, ◌<>◌, ℕ, ◌-◌, Bool, List, [], ◌∷◌, ◌++◌, Option, none, some, ◌==◌, if◌then◌else◌,
}
use csi_driver_nfs_export.Api.Objects.{Failure}
use csi_driver_nfs_export.Endpoint.{endpoint, invalid, out_of_range, parse_endpoint}

pub data ServiceKind : Type 0 where
  identity controller node : ServiceKind

-- What the server does: system calls, calls of grpc, and the wait group's `Done`.
pub data Event : Type 0 where
  remove : String → Event
  listen : String → String → Event
  -- grpc.NewServer with the logging interceptor, and the assignment to the field `server`
  create_server : Event
  register : ServiceKind → Event
  group_done : Event
  serve_requests : Event

-- How the goroutine ends: `serve` returns, or klog.Fatal ends the process.
pub data Ending : Type 0 where
  served : Ending
  bad_endpoint : String → Ending
  not_removed : String → Failure → Ending
  not_listening : Failure → Ending
  not_served : Failure → Ending
  panicked : Ending

-- The answers of the operating system and of grpc.
pub record Host : Type 0 where
  pub removed : String → Option Failure
  pub listening : String → String → Option Failure
  pub serving : Option Failure

-- Which of the three services are not nil.
pub record Services : Type 0 where
  pub identity : Bool
  pub controller : Bool
  pub node : Bool

unfoldable pub registrations : Services → List Event
registrations s =
    (if s.identity then register ServiceKind.identity ∷ [] else [])
    ++ ((if s.controller then register ServiceKind.controller ∷ [] else [])
        ++ (if s.node then register ServiceKind.node ∷ [] else []))

module _ (host : Host) where
  -- From `net.Listen` on.
  unfoldable pub listen_and_serve : String → String → Services → Bool → List Event × Ending
  unfolding registrations
  listen_and_serve proto addr services test_mode = elim (host.listening proto addr) [
    | some f ↦ (listen proto addr ∷ [], not_listening f)
    | none ↦
        let started =
          listen proto addr
          ∷ create_server
          ∷ (registrations services
              ++ ((if test_mode then group_done ∷ [] else []) ++ (serve_requests ∷ []))) in
        elim host.serving [ none ↦ (started, served) | some f ↦ (started, not_served f) ]
  ]

  -- A socket is removed first; that it is not there is no failure.
  unfoldable pub serve_at : String → String → Services → Bool → List Event × Ending
  unfolding listen_and_serve
  serve_at proto addr services test_mode =
      if proto == "unix"
      then (let path = "/" <> addr in
          elim (host.removed path) [
            | none ↦
                let (events, ending) = listen_and_serve proto path services test_mode in
                (remove path ∷ events, ending)
            | some f ↦
                if f.not_exist
                then (let (events, ending) = listen_and_serve proto path services test_mode in
                    (remove path ∷ events, ending))
                else (remove path ∷ [], not_removed path f)
          ])
      else listen_and_serve proto addr services test_mode

  unfoldable pub serve : String → Services → Bool → List Event × Ending
  unfolding parse_endpoint serve_at
  serve ep services test_mode = elim (parse_endpoint ep) [
    | invalid bad ↦ ([], bad_endpoint bad)
    | out_of_range ↦ ([], panicked)
    | endpoint proto addr ↦ serve_at proto addr services test_mode
  ]
