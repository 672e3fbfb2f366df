-- ===== src/Server/Tests.antt =====
-- Runs of the theorems on the server's goroutines.
use csi_driver_nfs_export.Base.{
  String, leb, ◌*◌, ◌+◌, ◌≢◌, List, [], ◌∷◌, refl, true, false, none, ◌≡◌,
}
use csi_driver_nfs_export.Base.Strings.{to_lower, has_prefix, cut}
use csi_driver_nfs_export.Endpoint.{parse_endpoint, has_scheme}
use csi_driver_nfs_export.Server.{
  Host, Services, ServiceKind, Event, remove, listen, create_server, register, group_done,
  serve_requests, registrations, listen_and_serve, serve_at, serve,
}
use csi_driver_nfs_export.Server.Machine.{
  State, graceful_stop, force_stop, stop_server, force_stop_server, Step, absent, stopped, returned,
  after_event, Reach, begin, later, start, act, wait_over, stop,
}
use csi_driver_nfs_export.Server.Stopping.{event_count, step_count, server_stops}
use csi_driver_nfs_export.Server.Safety.{server_is_safe}

abbrev host : Host
host = record { removed = λ path. none; listening = λ proto addr. none; serving = none }

abbrev services : Services
services = record { identity = true; controller = true; node = true }

-- What is left when the server was created and is about to call `Done`.
abbrev behind_done : List Event
behind_done = serve_requests ∷ []

abbrev registering : List Event
registering =
    register ServiceKind.identity
    ∷ register ServiceKind.controller
    ∷ register ServiceKind.node
    ∷ group_done
    ∷ behind_done

abbrev socket : String
socket = "//csi/csi.sock"

-- The test mode: `serve` runs up to `Done`, the caller is released, and the server is stopped.
abbrev final : State
final = record {
  counter = 0;
  created = true;
  pending = behind_done;
  caller = returned;
  stopper = stopped;
}

final_reached : Reach host "unix:///csi/csi.sock" services true final
unfolding serve parse_endpoint has_scheme to_lower has_prefix cut serve_at listen_and_serve
    registrations after_event
final_reached =
    later
      (later
        (later
          (later
            (later
              (later
                (later
                  (later
                    (later (later begin (start refl)) (
                      act (remove socket) (listen "unix" socket ∷ create_server ∷ registering)
                        refl))
                    (act (listen "unix" socket) (create_server ∷ registering) refl))
                  (act create_server registering refl))
                (act (register ServiceKind.identity)
                  (register ServiceKind.controller
                    ∷ register ServiceKind.node
                    ∷ group_done
                    ∷ behind_done)
                  refl))
              (act (register ServiceKind.controller)
                (register ServiceKind.node ∷ group_done ∷ behind_done) refl))
            (act (register ServiceKind.node) (group_done ∷ behind_done) refl))
          (act group_done behind_done refl))
        (wait_over refl refl))
      (stop refl refl)

server_is_safe_example :
    (true ≡ false → final.caller ≢ returned)
    × ((rest : List Event) → final.pending ≡ group_done ∷ rest → final.counter ≡ 1)
    × (final.stopper ≢ absent
        → (stop_server final ≡ graceful_stop) × (force_stop_server final ≡ force_stop))
server_is_safe_example =
    server_is_safe host "unix:///csi/csi.sock" services true final final_reached

server_stops_example :
    (leb
        (step_count host "unix:///csi/csi.sock" services true final_reached)
        (2 * event_count (serve host "unix:///csi/csi.sock" services true).0 + 4)
      ≡ true)
    × (((t : State) → Step host "unix:///csi/csi.sock" services true final t → ⊥)
        → (final.caller ≡ returned) × (final.stopper ≡ stopped) × (final.pending ≡ []))
unfolding serve parse_endpoint has_scheme to_lower has_prefix cut serve_at listen_and_serve
server_stops_example = server_stops host "unix:///csi/csi.sock" services refl final_reached
