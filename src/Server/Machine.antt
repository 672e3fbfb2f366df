-- ===== src/Server/Machine.antt =====
-- The goroutines of the server as a state machine: the caller of `Start` and `Wait`, `serve`, and in
-- the test mode the goroutine that stops the server. Every interleaving of their steps is a run.
-- A call of `serve` is a step when it is made. Where klog.Fatal ends the process, all goroutines end
-- with it: what really happens is then the beginning of a run.
use csi_driver_nfs_export.Base.{
  if◌then◌else◌, String, ℕ, ◌+◌, ◌-◌, Bool, true, false, List, [], ◌∷◌, ◌≡◌,
}
use csi_driver_nfs_export.Server.{
  Host, Services, Event, remove, listen, create_server, register, group_done, serve_requests, serve,
}

-- The caller: before `Start`, in `Wait`, or behind it.
pub data CallerPhase : Type 0 where
  idle waiting returned : CallerPhase

-- The goroutine of the test mode: not there, in `Wait`, or behind `GracefulStop`.
pub data StopperPhase : Type 0 where
  absent blocked stopped : StopperPhase

pub record State : Type 0 where
  -- the wait group's counter
  pub counter : ℕ
  -- the field `server` is set
  pub created : Bool
  -- what `serve` has still to do
  pub pending : List Event
  pub caller : CallerPhase
  pub stopper : StopperPhase

abbrev pub initial : State
initial = record { counter = 0; created = false; pending = []; caller = idle; stopper = absent }

-- GracefulStop and Stop of grpc, and the panic where the field `server` is nil.
pub data StopCall : Type 0 where
  graceful_stop force_stop nil_server : StopCall

-- `Stop`
unfoldable pub stop_server : State → StopCall
stop_server s = if s.created then graceful_stop else nil_server

-- `ForceStop`
unfoldable pub force_stop_server : State → StopCall
force_stop_server s = if s.created then force_stop else nil_server

-- A step of `serve`. `Done` takes one off the counter, and the goroutine that stops the server is
-- started behind it.
unfoldable pub after_event : Event → State → State
after_event create_server s = record s { created = true }
after_event group_done s = record s { counter = s.counter - 1; stopper = blocked }
after_event (remove _) s = s
after_event (listen _ _) s = s
after_event (register _) s = s
after_event serve_requests s = s

module _ (host : Host) (ep : String) (services : Services) (test_mode : Bool) where
  pub data Step : State → State → Type 0 where
    start :
        {s : State}
        → s.caller ≡ idle
        → Step s (record s {
          counter = s.counter + 1;
          pending = (serve host ep services test_mode).0;
          caller = waiting;
        })
    act :
        {s : State} (event : Event) (rest : List Event)
        → s.pending ≡ event ∷ rest
        → Step s (after_event event (record s { pending = rest }))
    wait_over :
        {s : State} → s.caller ≡ waiting → s.counter ≡ 0 → Step s (record s { caller = returned })
    stop :
        {s : State} → s.stopper ≡ blocked → s.counter ≡ 0 → Step s (record s { stopper = stopped })

  pub data Reach : State → Type 0 where
    begin : Reach initial
    later : {s t : State} → Reach s → Step s t → Reach t
