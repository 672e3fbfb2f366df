-- ===== src/Server/Safety.antt =====
-- What holds of the server's goroutines in every interleaving.
use csi_driver_nfs_export.Base.{
  String, ◌<>◌, ℕ, ◌+◌, Bool, true, false, ◌&&◌, List, [], ◌∷◌, ◌≡◌, ◌≢◌, refl, arith,
  if◌then◌else◌, inl, inr, leb,
}
use csi_driver_nfs_export.Endpoint.{endpoint, invalid, parse_endpoint}
use csi_driver_nfs_export.Endpoint.Range.{parse_endpoint_total}
use csi_driver_nfs_export.Server.{
  Host, Services, Event, remove, listen, create_server, register, group_done, serve_requests,
  bad_endpoint, registrations, listen_and_serve, serve_at, serve,
}
use csi_driver_nfs_export.Server.Machine.{
  CallerPhase, idle, waiting, returned, StopperPhase, absent, blocked, stopped, State, initial,
  graceful_stop, force_stop, stop_server, force_stop_server, after_event, Step, start, act,
  wait_over, stop, Reach, begin, later,
}

-- How often `Done` is still to be called.
unfoldable pub done_count : List Event → ℕ
done_count [] = 0
done_count (group_done ∷ events) = done_count events + 1
done_count (create_server ∷ events) = done_count events
done_count (_ ∷ events) = done_count events

-- `Done` is called only after the server was created.
unfoldable is_ordered : Bool → List Event → Bool
is_ordered created [] = true
is_ordered created (create_server ∷ events) = is_ordered true events
is_ordered created (group_done ∷ events) = let rest = is_ordered created events in created && rest
is_ordered created (_ ∷ events) = is_ordered created events

module _ (host : Host) where
  listen_and_serve_done :
      (proto addr : String) (services : Services) (test_mode : Bool)
      → leb
          (done_count (listen_and_serve host proto addr services test_mode).0)
          (if test_mode then 1 else 0)
        ≡ true
  unfolding listen_and_serve registrations done_count
  listen_and_serve_done proto addr services test_mode = ground arith

  listen_and_serve_ordered :
      (proto addr : String) (services : Services) (test_mode : Bool)
      → is_ordered false (listen_and_serve host proto addr services test_mode).0 ≡ true
  unfolding listen_and_serve registrations is_ordered
  listen_and_serve_ordered proto addr services test_mode = ground arith

  serve_at_done :
      (proto addr : String) (services : Services) (test_mode : Bool)
      → leb
          (done_count (serve_at host proto addr services test_mode).0)
          (if test_mode then 1 else 0)
        ≡ true
  unfolding serve_at done_count
  serve_at_done proto addr services test_mode = ground (
    arith,
    listen_and_serve_done proto addr services test_mode,
    listen_and_serve_done proto ("/" <> addr) services test_mode,
  )

  serve_at_ordered :
      (proto addr : String) (services : Services) (test_mode : Bool)
      → is_ordered false (serve_at host proto addr services test_mode).0 ≡ true
  unfolding serve_at is_ordered
  serve_at_ordered proto addr services test_mode = ground (
    arith,
    listen_and_serve_ordered proto addr services test_mode,
    listen_and_serve_ordered proto ("/" <> addr) services test_mode,
  )

  pub serve_invalid :
      (ep : String) (services : Services) (test_mode : Bool)
      → parse_endpoint ep ≡ invalid ep
      → serve host ep services test_mode ≡ ([], bad_endpoint ep)
  unfolding serve
  serve_invalid ep services test_mode q = rw (q, serve) refl

  pub serve_endpoint :
      (ep proto addr : String) (services : Services) (test_mode : Bool)
      → parse_endpoint ep ≡ endpoint proto addr
      → serve host ep services test_mode ≡ serve_at host proto addr services test_mode
  unfolding serve
  serve_endpoint ep proto addr services test_mode q = rw (q, serve) refl

  serve_done :
      (ep : String) (services : Services) (test_mode : Bool)
      → leb (done_count (serve host ep services test_mode).0) (if test_mode then 1 else 0) ≡ true
  unfolding done_count
  serve_done ep services test_mode = elim (parse_endpoint_total ep) [
    | inl q ↦ rw (serve_invalid ep services test_mode q) (ground arith)
    | inr (proto, addr, q, _, _) ↦
        rw (serve_endpoint ep proto addr services test_mode q)
          (serve_at_done proto addr services test_mode)
  ]

  serve_ordered :
      (ep : String) (services : Services) (test_mode : Bool)
      → is_ordered false (serve host ep services test_mode).0 ≡ true
  unfolding is_ordered
  serve_ordered ep services test_mode = elim (parse_endpoint_total ep) [
    | inl q ↦ rw (serve_invalid ep services test_mode q) refl
    | inr (proto, addr, q, _, _) ↦
        rw (serve_endpoint ep proto addr services test_mode q)
          (serve_at_ordered proto addr services test_mode)
  ]

abbrev pub is_idle : CallerPhase → Bool
is_idle idle = true
is_idle waiting = false
is_idle returned = false

abbrev pub is_absent : StopperPhase → Bool
is_absent absent = true
is_absent blocked = false
is_absent stopped = false

safe_stopper :
    (p : StopperPhase) (created : Bool)
    → (is_absent p ≡ false → created ≡ true)
    → p ≢ absent
    → created ≡ true
safe_stopper absent created h q = absurd (q refl)
safe_stopper blocked created h q = h refl
safe_stopper stopped created h q = h refl

pub record Inv (test_mode : Bool) (s : State) : Type 0 where
  pub fresh :
      is_idle s.caller ≡ true
      → (s.counter ≡ 0) × (s.pending ≡ []) × (s.stopper ≡ absent) × (s.created ≡ false)
  pub held :
      is_idle s.caller ≡ false
      → is_absent s.stopper ≡ true
      → (s.counter ≡ 1)
        × (s.caller ≡ waiting)
        × (leb (done_count s.pending) (if test_mode then 1 else 0) ≡ true)
  pub freed :
      is_absent s.stopper ≡ false
      → (s.counter ≡ 0) × (done_count s.pending ≡ 0) × (s.created ≡ true) × (test_mode ≡ true)
  ordered : is_ordered s.created s.pending ≡ true

Inv-initial : (test_mode : Bool) → Inv test_mode initial
unfolding is_ordered
Inv-initial test_mode = record {
  fresh = λ _. (refl, refl, refl, refl);
  held = λ q. cc;
  freed = λ q. cc;
  ordered = refl;
}

module _ (host : Host) (ep : String) (services : Services) (test_mode : Bool) where
  act_keeps :
      (s : State) (event : Event) (rest : List Event)
      → s.pending ≡ event ∷ rest
      → Inv test_mode s
      → Inv test_mode (after_event event (record s { pending = rest }))
  unfolding after_event done_count is_ordered
  act_keeps s create_server rest q inv = ground (arith, inv.fresh, inv.held, inv.freed, inv.ordered)
  act_keeps s group_done rest q inv = ground (arith, inv.fresh, inv.held, inv.freed, inv.ordered)
  act_keeps s (remove p) rest q inv = ground (arith, inv.fresh, inv.held, inv.freed, inv.ordered)
  act_keeps s (listen p a) rest q inv = ground (arith, inv.fresh, inv.held, inv.freed, inv.ordered)
  act_keeps s (register k) rest q inv = ground (arith, inv.fresh, inv.held, inv.freed, inv.ordered)
  act_keeps s serve_requests rest q inv =
      ground (arith, inv.fresh, inv.held, inv.freed, inv.ordered)

  Step-Inv : {s t : State} → Step host ep services test_mode s t → Inv test_mode s → Inv test_mode t
  Step-Inv (start {s = s} before) inv = ground (
    arith,
    inv.fresh,
    inv.held,
    inv.freed,
    inv.ordered,
    serve_done host ep services test_mode,
    serve_ordered host ep services test_mode,
  )
  Step-Inv (act {s = s} event rest q) inv = act_keeps s event rest q inv
  Step-Inv (wait_over {s = s} w z) inv = ground (arith, inv.fresh, inv.held, inv.freed, inv.ordered)
  Step-Inv (stop {s = s} b z) inv = ground (arith, inv.fresh, inv.held, inv.freed, inv.ordered)

  pub Reach-Inv : {s : State} → Reach host ep services test_mode s → Inv test_mode s
  Reach-Inv begin = Inv-initial test_mode
  Reach-Inv (later r step) = Step-Inv step (Reach-Inv r)

-- Whatever the order in which the goroutines run, on every host and for every endpoint: outside the
-- test mode the caller's `Wait` never returns; `Done` is called only where the counter is one, so
-- that it never falls below zero; and once the goroutine of the test mode is started, which is to
-- call GracefulStop, neither `Stop` nor `ForceStop` meets a nil pointer.
pub server_is_safe :
    (host : Host) (ep : String) (services : Services) (test_mode : Bool) (s : State)
    → Reach host ep services test_mode s
    → (test_mode ≡ false → s.caller ≢ returned)
      × ((rest : List Event) → s.pending ≡ group_done ∷ rest → s.counter ≡ 1)
      × (s.stopper ≢ absent → (stop_server s ≡ graceful_stop) × (force_stop_server s ≡ force_stop))
unfolding done_count stop_server force_stop_server
server_is_safe host ep services test_mode s r =
    let inv = Reach-Inv host ep services test_mode r in
    (
      λ plain gone. ground (arith, inv.held, inv.freed),
      λ rest q. ground (arith, inv.fresh, inv.held, inv.freed),
      λ there.
          let set = safe_stopper s.stopper s.created (λ q. (inv.freed q).2) there in
          (rw set refl, rw set refl),
    )
