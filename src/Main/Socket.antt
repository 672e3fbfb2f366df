-- ===== src/Main/Socket.antt =====
-- The server on a Unix socket: what it does when nothing fails, and what has not failed when it served.
use csi_driver_nfs_export.Base.{
  String, ◌<>◌, Bool, true, false, List, [], ◌∷◌, Option, none, some, ◌==◌, ◌≡◌, ◌≢◌, ◌∙◌, ap, sym,
  refl, inl, inr, Option-cases, Bool-cases,
}
use csi_driver_nfs_export.Api.Objects.{Failure}
use csi_driver_nfs_export.Endpoint.Unix.{parse_endpoint_made}
use csi_driver_nfs_export.Server.{
  Host, Services, ServiceKind, Event, remove, listen, create_server, register, serve_requests,
  Ending, not_removed, not_listening, not_served, served, registrations, listen_and_serve, serve_at,
  serve,
}
use csi_driver_nfs_export.Server.Safety.{serve_endpoint}

-- What the server does on the socket of a path.
abbrev pub socket_events : String → List Event
socket_events path =
    remove path
    ∷ listen "unix" path
    ∷ create_server
    ∷ register ServiceKind.identity
    ∷ register ServiceKind.controller
    ∷ register ServiceKind.node
    ∷ serve_requests
    ∷ []

abbrev pub is_removable : Option Failure → Bool
is_removable none = true
is_removable (some f) = f.not_exist

refused : {f : Failure} → not_served f ≢ served
refused q = cc

deaf : {f : Failure} → not_listening f ≢ served
deaf q = cc

in_the_way : {path : String} {f : Failure} → not_removed path f ≢ served
in_the_way q = cc

abbrev pub all_services : Services
all_services = record { identity = true; controller = true; node = true }

module _ (host : Host) where
  listen_and_serve_socket :
      (path : String)
      → host.listening "unix" path ≡ none
      → host.serving ≡ none
      → listen_and_serve host "unix" path all_services false ≡ (
        listen "unix" path
            ∷ create_server
            ∷ register ServiceKind.identity
            ∷ register ServiceKind.controller
            ∷ register ServiceKind.node
            ∷ serve_requests
            ∷ [],
        served,
      )
  unfolding listen_and_serve registrations
  listen_and_serve_socket path heard answered = rw (heard, answered, listen_and_serve) refl

  serve_at_socket :
      (path : String)
      → is_removable (host.removed ("/" <> path)) ≡ true
      → host.listening "unix" ("/" <> path) ≡ none
      → host.serving ≡ none
      → serve_at host "unix" path all_services false ≡ (socket_events ("/" <> path), served)
  unfolding serve_at
  serve_at_socket path removable heard answered = elim (Option-cases (host.removed ("/" <> path))) [
    | inl q ↦ rw (q, listen_and_serve_socket ("/" <> path) heard answered) refl
    | inr (f, q) ↦
        rw (q, rw q at removable, listen_and_serve_socket ("/" <> path) heard answered) refl
  ]

  listen_and_serve_ends :
      (path : String)
      → (listen_and_serve host "unix" path all_services false).1 ≡ served
      → (host.listening "unix" path ≡ none) × (host.serving ≡ none)
  unfolding listen_and_serve
  listen_and_serve_ends path q = elim (Option-cases (host.listening "unix" path)) [
    | inr (f, failed) ↦ absurd (deaf (rw (failed, listen_and_serve) at q))
    | inl heard ↦ elim (Option-cases host.serving) [
      | inl answered ↦ (heard, answered)
      | inr (f, failed) ↦ absurd (refused (rw (heard, failed, listen_and_serve) at q))
    ]
  ]

  serve_at_ends :
      (path : String)
      → (serve_at host "unix" path all_services false).1 ≡ served
      → (is_removable (host.removed ("/" <> path)) ≡ true)
        × (host.listening "unix" ("/" <> path) ≡ none)
        × (host.serving ≡ none)
  unfolding serve_at
  serve_at_ends path q = elim (Option-cases (host.removed ("/" <> path))) [
    | inl fine ↦
        let (heard, answered) = listen_and_serve_ends ("/" <> path) (rw fine at q) in
        (rw fine refl, heard, answered)
    | inr (f, failed) ↦ elim (Bool-cases f.not_exist) [
      | inl missing ↦
          let (heard, answered) = listen_and_serve_ends ("/" <> path) (rw (failed, missing) at q) in
          (rw (failed, missing) refl, heard, answered)
      | inr there ↦ absurd (in_the_way (rw (failed, there) at q))
    ]
  ]

  serve_path :
      (ep path : String)
      → ep ≡ "unix" <> "://" <> path
      → (path == "") ≡ false
      → serve host ep all_services false ≡ serve_at host "unix" path all_services false
  serve_path ep path made full =
      serve_endpoint host ep "unix" path all_services false
        (rw made (parse_endpoint_made "unix" path (inl refl) full))

  pub serve_socket :
      (ep path : String)
      → ep ≡ "unix" <> "://" <> path
      → (path == "") ≡ false
      → is_removable (host.removed ("/" <> path)) ≡ true
      → host.listening "unix" ("/" <> path) ≡ none
      → host.serving ≡ none
      → serve host ep all_services false ≡ (socket_events ("/" <> path), served)
  serve_socket ep path made full removable heard answered =
      serve_path ep path made full ∙ serve_at_socket path removable heard answered

  pub serve_socket_ends :
      (ep path : String)
      → ep ≡ "unix" <> "://" <> path
      → (path == "") ≡ false
      → (serve host ep all_services false).1 ≡ served
      → (is_removable (host.removed ("/" <> path)) ≡ true)
        × (host.listening "unix" ("/" <> path) ≡ none)
        × (host.serving ≡ none)
  serve_socket_ends ep path made full q =
      serve_at_ends path
        (ap (λ (r : List Event × Ending). r.1) (sym (serve_path ep path made full)) ∙ q)
