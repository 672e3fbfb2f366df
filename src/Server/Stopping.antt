-- ===== src/Server/Stopping.antt =====
-- That the goroutines of the server come to an end.
use csi_driver_nfs_export.Base.{
  differ, String, ◌<>◌, ℕ, ◌+◌, ◌*◌, Bool, true, false, List, [], ◌∷◌, ◌≡◌, refl, arith, inl, inr,
  leb, sym, ◌∙◌, ap,
}
use csi_driver_nfs_export.Endpoint.Range.{parse_endpoint_total}
use csi_driver_nfs_export.Server.{
  Host, Services, Event, remove, listen, create_server, register, group_done, serve_requests,
  Ending, served, bad_endpoint, registrations, listen_and_serve, serve_at, serve,
}
use csi_driver_nfs_export.Server.Machine.{
  CallerPhase, idle, waiting, returned, StopperPhase, absent, blocked, stopped, State, initial,
  after_event, Step, start, act, wait_over, stop, Reach, begin, later,
}
use csi_driver_nfs_export.Server.Safety.{
  done_count, is_idle, is_absent, Reach-Inv, serve_endpoint, serve_invalid,
}

abbrev pub event_count : List Event → ℕ
event_count [] = 0
event_count (e ∷ events) = event_count events + 1

abbrev caller_left : ℕ → CallerPhase → ℕ
caller_left n idle = 2 * n + 2
caller_left n waiting = 1
caller_left n returned = 0

abbrev stopper_left : StopperPhase → ℕ
stopper_left absent = 2
stopper_left blocked = 1
stopper_left stopped = 0

-- More than the steps that are left; `n` is what `serve` will do.
abbrev steps_left : ℕ → State → ℕ
steps_left n s = 2 * event_count s.pending + caller_left n s.caller + stopper_left s.stopper

module _ (host : Host) (ep : String) (services : Services) (test_mode : Bool) where
  unfoldable pub step_count : {s : State} → Reach host ep services test_mode s → ℕ
  step_count begin = 0
  step_count (later r step) = let before = step_count r in before + 1

unserved : {bad : String} → bad_endpoint bad ≡ served → ⊥
unserved q = cc

stopper_small : (p : StopperPhase) → leb (stopper_left p) 2 ≡ true
stopper_small absent = refl
stopper_small blocked = refl
stopper_small stopped = refl

module _ (host : Host) where
  listen_and_serve_done_once :
      (proto addr : String) (services : Services)
      → (listen_and_serve host proto addr services true).1 ≡ served
      → done_count (listen_and_serve host proto addr services true).0 ≡ 1
  unfolding listen_and_serve registrations done_count
  listen_and_serve_done_once proto addr services q = ground arith

  serve_at_done_once :
      (proto addr : String) (services : Services)
      → (serve_at host proto addr services true).1 ≡ served
      → done_count (serve_at host proto addr services true).0 ≡ 1
  unfolding serve_at done_count
  serve_at_done_once proto addr services q = ground (
    arith,
    listen_and_serve_done_once proto addr services,
    listen_and_serve_done_once proto ("/" <> addr) services,
  )

  serve_done_once :
      (ep : String) (services : Services)
      → (serve host ep services true).1 ≡ served
      → done_count (serve host ep services true).0 ≡ 1
  unfolding done_count
  serve_done_once ep services q = elim (parse_endpoint_total ep) [
    | inl bad ↦ absurd (
        unserved (
          sym (ap (λ (r : List Event × Ending). r.1) (serve_invalid host ep services true bad))
          ∙ q))
    | inr (proto, addr, parsed, _, _) ↦
        let same = serve_endpoint host ep proto addr services true parsed in
        rw same (serve_at_done_once proto addr services (rw same at q))
  ]

module _ (host : Host) (ep : String) (services : Services) (test_mode : Bool) where
  abbrev script : List Event
  script = (serve host ep services test_mode).0

  act_left :
      (s : State) (event : Event) (rest : List Event)
      → s.pending ≡ event ∷ rest
      → leb
          (steps_left (event_count script) (after_event event (record s { pending = rest })) + 1)
          (steps_left (event_count script) s)
        ≡ true
  unfolding after_event
  act_left s group_done rest q = ground (arith, ap event_count q, stopper_small s.stopper)
  act_left s create_server rest q = ground (arith, ap event_count q)
  act_left s (remove p) rest q = ground (arith, ap event_count q)
  act_left s (listen p a) rest q = ground (arith, ap event_count q)
  act_left s (register k) rest q = ground (arith, ap event_count q)
  act_left s serve_requests rest q = ground (arith, ap event_count q)

  Step-left :
      {s t : State}
      → Step host ep services test_mode s t
      → leb (steps_left (event_count script) t + 1) (steps_left (event_count script) s) ≡ true
  Step-left (start {s = s} before) = rw before (ground arith)
  Step-left (act {s = s} event rest q) = act_left s event rest q
  Step-left (wait_over {s = s} w z) = rw w (ground arith)
  Step-left (stop {s = s} b z) = rw b (ground arith)

  steps_bound :
      {s : State} (r : Reach host ep services test_mode s)
      → leb
          (step_count host ep services test_mode r + steps_left (event_count script) s)
          (steps_left (event_count script) initial)
        ≡ true
  unfolding step_count
  steps_bound begin = ground arith
  steps_bound (later r step) = ground (arith, steps_bound r, Step-left step)

module _ (host : Host) (ep : String) (services : Services)
    (good : (serve host ep services true).1 ≡ served) where
  -- Until `Done` is called, it is still to be called.
  abbrev AwaitsDone : State → Type 0
  AwaitsDone s = is_idle s.caller ≡ false → is_absent s.stopper ≡ true → done_count s.pending ≡ 1

  act-AwaitsDone :
      (s : State) (event : Event) (rest : List Event)
      → s.pending ≡ event ∷ rest
      → AwaitsDone s
      → AwaitsDone (after_event event (record s { pending = rest }))
  unfolding after_event done_count
  act-AwaitsDone s create_server rest q awaits = ground (arith, awaits)
  act-AwaitsDone s group_done rest q awaits = ground (arith, awaits)
  act-AwaitsDone s (remove p) rest q awaits = ground (arith, awaits)
  act-AwaitsDone s (listen p a) rest q awaits = ground (arith, awaits)
  act-AwaitsDone s (register k) rest q awaits = ground (arith, awaits)
  act-AwaitsDone s serve_requests rest q awaits = ground (arith, awaits)

  Step-AwaitsDone : {s t : State} → Step host ep services true s t → AwaitsDone s → AwaitsDone t
  Step-AwaitsDone (start {s = s} before) awaits =
      λ busy there. serve_done_once host ep services good
  Step-AwaitsDone (act {s = s} event rest q) awaits = act-AwaitsDone s event rest q awaits
  Step-AwaitsDone (wait_over {s = s} w z) awaits = λ busy there. awaits (rw w refl) there
  Step-AwaitsDone (stop {s = s} b z) awaits = λ busy there. cc

  Reach-AwaitsDone : {s : State} → Reach host ep services true s → AwaitsDone s
  Reach-AwaitsDone begin = λ busy there. cc
  Reach-AwaitsDone (later r step) = Step-AwaitsDone step (Reach-AwaitsDone r)

  abbrev IsStuck : State → Type 0
  IsStuck s = (t : State) → Step host ep services true s t → ⊥

  stuck_done : (s : State) → IsStuck s → (events : List Event) → s.pending ≡ events → events ≡ []
  stuck_done s stuck [] q = refl
  stuck_done s stuck (event ∷ rest) q = absurd (stuck _ (act event rest q))

  stuck_returned :
      (s : State) → IsStuck s → s.counter ≡ 0 → (p : CallerPhase) → s.caller ≡ p → p ≡ returned
  stuck_returned s stuck zero idle q = absurd (stuck _ (start q))
  stuck_returned s stuck zero waiting q = absurd (stuck _ (wait_over q zero))
  stuck_returned s stuck zero returned q = refl

  stuck_stopped :
      (s : State)
      → IsStuck s
      → s.counter ≡ 0
      → is_absent s.stopper ≡ false
      → (p : StopperPhase) → s.stopper ≡ p
      → p ≡ stopped
  stuck_stopped s stuck zero there absent q = absurd (differ (sym there ∙ ap is_absent q))
  stuck_stopped s stuck zero there blocked q = absurd (stuck _ (stop q zero))
  stuck_stopped s stuck zero there stopped q = refl

  stuck_busy : (s : State) → IsStuck s → (p : CallerPhase) → s.caller ≡ p → is_idle p ≡ false
  stuck_busy s stuck idle q = absurd (stuck _ (start q))
  stuck_busy s stuck waiting q = refl
  stuck_busy s stuck returned q = refl

  stuck_there :
      {s : State} → Reach host ep services true s → IsStuck s → is_absent s.stopper ≡ false
  unfolding done_count
  stuck_there {s} r stuck =
      let idle = stuck_busy s stuck s.caller refl in
      let nothing_left = ap done_count (stuck_done s stuck s.pending refl) in
      ground (arith, Reach-AwaitsDone r, idle, nothing_left)

-- In the test mode, on a host where `serve` comes to its end: whatever the order in which the
-- goroutines run, a run has at most twice as many steps as `serve` does, and four; and where no
-- goroutine can go on, the caller's `Wait` has returned, the server was stopped, and nothing of `serve`
-- is left.
pub server_stops :
    (host : Host) (ep : String) (services : Services)
    → (serve host ep services true).1 ≡ served
    → {s : State} (r : Reach host ep services true s)
    → (leb
          (step_count host ep services true r)
          (2 * event_count (serve host ep services true).0 + 4)
        ≡ true)
      × (((t : State) → Step host ep services true s t → ⊥)
          → (s.caller ≡ returned) × (s.stopper ≡ stopped) × (s.pending ≡ []))
server_stops host ep services good {s} r = (
  ground (arith, steps_bound host ep services true r),
  λ stuck.
      let there = stuck_there host ep services good r stuck in
      let (zero, _, _, _) = (Reach-Inv host ep services true r).freed there in
      (
        stuck_returned host ep services good s stuck zero s.caller refl,
        stuck_stopped host ep services good s stuck zero there s.stopper refl,
        stuck_done host ep services good s stuck s.pending refl,
      ),
)
