-- ===== src/Main/Serving.antt =====
-- From the command line to the services that answer on the socket.
use csi_driver_nfs_export.Base.{
  String, ◌<>◌, true, false, List, [], ◌∷◌, none, ◌==◌, ◌≡◌, ◌≢◌, ◌↔◌, ◌⊎◌, refl, inl, inr,
  Bool-cases, eq_iff, eq_refl,
}
use csi_driver_nfs_export.Api.Objects.{Failure}
use csi_driver_nfs_export.Driver.{
  Driver, new_driver, add_node_capabilities, add_controller_capabilities,
}
use csi_driver_nfs_export.Main.{
  Flags, options_of, Try, Connected, connected, no_kubeconfig, no_cluster_config, no_client,
  get_kube_client,
}
use csi_driver_nfs_export.Main.Run.{Process, no_clientset, running, run, warnings_of, handle, main}
use csi_driver_nfs_export.Server.{Host, Event, Ending, served}
use csi_driver_nfs_export.Version.{Build, VersionInfo, Text, text, failure, get_version_yaml}
use csi_driver_nfs_export.Main.Socket.{socket_events, is_removable, serve_socket, serve_socket_ends}

warnings_of_lem :
    (name : String)
    → ((name ≡ "") × (warnings_of name ≡ "nodeid is empty" ∷ []))
      ⊎ ((name ≢ "") × (warnings_of name ≡ []))
warnings_of_lem name = elim (Bool-cases (name == "")) [
  | inl empty ↦ inl ((eq_iff name "").0 empty, rw empty refl)
  | inr named ↦ inr (λ q. let wrong = rw (q, eq_refl "") at named in cc, rw named refl)
]

ended :
    {d d' : Driver} {ev ev' : List Event} {x y : Ending} → running d ev x ≡ running d' ev' y → x ≡ y
ended q = cc

printed : (t : Text) → ((version : String) × (t ≡ text version)) ⊎ ((f : Failure) × (t ≡ failure f))
printed (text version) = inl (version, refl)
printed (failure f) = inr (f, refl)

-- What `handle` makes of the client.
abbrev process_of : {Clientset : Type 0} → Process → Connected Clientset → Process
process_of p (connected clientset) = p
process_of p (no_kubeconfig f) = no_clientset f
process_of p (no_cluster_config f) = no_clientset f
process_of p (no_client f) = no_clientset f

reached :
    {Clientset : Type 0} (p : Process) (d : Driver) (events : List Event) (c : Connected Clientset)
    → process_of p c ≡ running d events served
    → ((clientset : Clientset) × (c ≡ connected clientset)) × (p ≡ running d events served)
reached p d events (connected clientset) q = ((clientset, refl), q)
reached p d events (no_kubeconfig f) q = cc
reached p d events (no_cluster_config f) q = cc
reached p d events (no_client f) q = cc

module _ (marshal : VersionInfo → Text) (build : Build) (host : Host) {Config Clientset : Type 0}
    (from_flags : String → Try Config) (in_cluster : Try Config)
    (new_for_config : Config → Try Clientset) where
  handle_serves :
      (kubeconfig : String) (flags : Flags) (path : String) {clientset : Clientset}
      {version : String}
      → flags.endpoint ≡ "unix" <> "://" <> path
      → (path == "") ≡ false
      → get_kube_client from_flags in_cluster new_for_config kubeconfig ≡ connected clientset
      → get_version_yaml marshal build flags.driver_name ≡ text version
      → is_removable (host.removed ("/" <> path)) ≡ true
      → host.listening "unix" ("/" <> path) ≡ none
      → host.serving ≡ none
      → handle marshal build host from_flags in_cluster new_for_config kubeconfig flags
        ≡ running
            (new_driver build.driver_version (options_of flags))
            (socket_events ("/" <> path))
            served
  unfolding handle run new_driver options_of add_node_capabilities add_controller_capabilities
  handle_serves kubeconfig flags path made full client printed removable heard answered =
      rw
        (
          client,
          printed,
          serve_socket host flags.endpoint path made full removable heard answered,
          handle,
          run,
        )
        refl

  -- The client of Kubernetes is made, the version can be printed, no socket that cannot be removed is
  -- in the way, the host listens on it, and gRPC serves without a failure.
  abbrev pub CanServe : String → Flags → String → Type 0
  CanServe kubeconfig flags path =
      ((clientset : Clientset) × (get_kube_client from_flags in_cluster new_for_config kubeconfig
          ≡ connected clientset))
      × ((version : String) × (get_version_yaml marshal build flags.driver_name ≡ text version))
      × (is_removable (host.removed ("/" <> path)) ≡ true)
      × (host.listening "unix" ("/" <> path) ≡ none)
      × (host.serving ≡ none)

  run_ends :
      (flags : Flags) (path : String) {d : Driver} {events : List Event}
      → flags.endpoint ≡ "unix" <> "://" <> path
      → (path == "") ≡ false
      → run marshal build host (new_driver build.driver_version (options_of flags)) false
        ≡ running d events served
      → ((version : String) × (get_version_yaml marshal build flags.driver_name ≡ text version))
        × (is_removable (host.removed ("/" <> path)) ≡ true)
        × (host.listening "unix" ("/" <> path) ≡ none)
        × (host.serving ≡ none)
  unfolding run new_driver options_of add_node_capabilities add_controller_capabilities
  run_ends flags path made full q =
      elim (printed (get_version_yaml marshal build flags.driver_name)) [
        | inr (f, failed) ↦ let wrong = rw (failed, run) at q in cc
        | inl (version, fine) ↦
            let (removable, heard, answered) =
              serve_socket_ends host flags.endpoint path made full (ended (rw (fine, run) at q)) in
            ((version, fine), removable, heard, answered)
      ]

  handle_ends :
      (kubeconfig : String) (flags : Flags) (path : String) {d : Driver} {events : List Event}
      → flags.endpoint ≡ "unix" <> "://" <> path
      → (path == "") ≡ false
      → handle marshal build host from_flags in_cluster new_for_config kubeconfig flags
        ≡ running d events served
      → CanServe kubeconfig flags path
  unfolding handle
  handle_ends kubeconfig flags path {d} {events} made full q =
      let (client, ran) =
        reached (run marshal build host (new_driver build.driver_version (options_of flags)) false)
          d events (get_kube_client from_flags in_cluster new_for_config kubeconfig) q in
      let (version, removable, heard, answered) = run_ends flags path made full ran in
      (client, version, removable, heard, answered)

  pub main_serves :
      (kubeconfig : String) (flags : Flags) (path : String)
      → flags.endpoint ≡ "unix" <> "://" <> path
      → (path == "") ≡ false
      → (((main marshal build host from_flags in_cluster new_for_config kubeconfig flags).1
            ≡ running
                (new_driver build.driver_version (options_of flags))
                (socket_events ("/" <> path))
                served)
          ↔ CanServe kubeconfig flags path)
        × (((flags.node_id ≡ "")
              × ((main marshal build host from_flags in_cluster new_for_config kubeconfig flags).0
                  ≡ "nodeid is empty" ∷ []))
            ⊎ ((flags.node_id ≢ "")
                × ((main marshal build host from_flags in_cluster new_for_config kubeconfig flags).0
                    ≡ [])))
  unfolding main
  main_serves kubeconfig flags path made full = (
    (
      handle_ends kubeconfig flags path made full,
      λ ((clientset, client), (version, printed), removable, heard, answered).
          handle_serves kubeconfig flags path made full client printed removable heard answered,
    ),
    warnings_of_lem flags.node_id,
  )
