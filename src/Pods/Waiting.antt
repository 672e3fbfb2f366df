-- ===== src/Pods/Waiting.antt =====
-- What the waits establish, given that the polling loop does what its documentation says.
use csi_driver_nfs_export.Base.{String, ℕ, Bool, true, ◌∷◌, Option, none, ◌≡◌, arith, ◌∙◌, ap}
use mathlib.Core.Path.{subst}
use csi_driver_nfs_export.Api.Objects.{running, Failure, Reply, probe_success}
use csi_driver_nfs_export.Api.Calls.{Call, History}
use csi_driver_nfs_export.Api.Exec.{Outcome, ok, Exec, Code, ◌>>=◌}
use csi_driver_nfs_export.Api.Client.{
  Env, Polled, done, broken, timed_out, refused, panicked, again, PollsAsDocumented,
}
use csi_driver_nfs_export.Api.Rules.{Does, Extends, Extends-trans, EndsIn, does_rules}
use csi_driver_nfs_export.Pods.{
  is_pod_running, wait_for_pod_running, is_tcp_ready, wait_for_tcp_ready,
}

-- A wait that ends without an error has run its condition, and the condition was true.
Polled-true :
    {condition : Exec (Reply Bool)} {h h' : History} {r : Outcome (Option Failure) × History}
    → Polled condition h r
    → r ≡ (ok none, h')
    → (g : History) × (condition g ≡ (ok (record { value = true; error = none }), h'))
Polled-true (done {h = g} q) p =
    let yes : Reply Bool = record { value = true; error = none } in
    (g, q ∙ ap (λ (r : Outcome (Option Failure) × History). (ok yes, r.1)) p)
Polled-true (broken q) p = cc
Polled-true (timed_out q) p = cc
Polled-true (refused q) p = cc
Polled-true (panicked q) p = cc
Polled-true (again q rest) p = Polled-true rest p

-- A condition that is true at once ends the wait.
Polled-at_once :
    {condition : Exec (Reply Bool)} {h h' : History} {r : Outcome (Option Failure) × History}
    → Polled condition h r
    → condition h ≡ (ok (record { value = true; error = none }), h')
    → r ≡ (ok none, h')
Polled-at_once (done q) p = ground (arith, q, p)
Polled-at_once (broken q) p = cc
Polled-at_once (timed_out q) p = cc
Polled-at_once (refused q) p = cc
Polled-at_once (panicked q) p = cc
Polled-at_once (again q rest) p = cc

module _ {P : Call → Type 0} {Q : Code → Type 0} {condition : Exec (Reply Bool)}
    (d : Does P Q condition) where
  ran : {h h' : History} {o : Outcome (Reply Bool)} → condition h ≡ (o, h') → Extends P h h'
  ran {h} q = subst (λ (r : Outcome (Reply Bool) × History). Extends P h r.1) q (d.makes h)

  Polled-Extends :
      {h : History} {r : Outcome (Option Failure) × History}
      → Polled condition h r
      → Extends P h r.1
  Polled-Extends (done q) = ran q
  Polled-Extends (broken q) = ran q
  Polled-Extends (timed_out q) = ran q
  Polled-Extends (refused q) = ran q
  Polled-Extends (panicked q) = ran q
  Polled-Extends (again q rest) = Extends-trans (ran q) (Polled-Extends rest)

  Polled-ends :
      {h : History} {r : Outcome (Option Failure) × History} → Polled condition h r → EndsIn Q r.0
  Polled-ends (done q) = tt
  Polled-ends (broken q) = tt
  Polled-ends (timed_out q) = tt
  Polled-ends (refused {h = h} q) =
      subst (λ (x : Outcome (Reply Bool) × History). EndsIn Q x.0) q (d.ends h)
  Polled-ends (panicked {h = h} q) =
      subst (λ (x : Outcome (Reply Bool) × History). EndsIn Q x.0) q (d.ends h)
  Polled-ends (again q rest) = Polled-ends rest

module _ (e : Env) (polls : PollsAsDocumented e) {P : Call → Type 0} {Q : Code → Type 0} where
  -- A wait makes the calls of its condition, and fails only by its result.
  pub wait_for_pod_running-Does :
      (ns name : String) (timeout : ℕ)
      → P (Call.get_pod ns name)
      → Does P Q (wait_for_pod_running e ns name timeout)
  unfolding wait_for_pod_running is_pod_running
  wait_for_pod_running-Does ns name timeout p =
      let d : Does P Q (is_pod_running e name ns) = search (does_rules, p) in
      record {
        makes = λ h. Polled-Extends d (polls.polled 1 timeout _ h);
        ends = λ h. Polled-ends d (polls.polled 1 timeout _ h);
      }

  pub wait_for_tcp_ready-Does :
      (host : String) (port timeout : ℕ)
      → P (Call.probe_tcp host port)
      → Does P Q (wait_for_tcp_ready e host port timeout)
  unfolding wait_for_tcp_ready is_tcp_ready
  wait_for_tcp_ready-Does host port timeout p =
      let d : Does P Q (is_tcp_ready e host port) = search (does_rules, p) in
      record {
        makes = λ h. Polled-Extends d (polls.polled 1 timeout _ h);
        ends = λ h. Polled-ends d (polls.polled 1 timeout _ h);
      }

module _ (e : Env) (polls : PollsAsDocumented e) where
  -- If the polling loop does what its documentation says, a wait for a pod that ends without an
  -- error has as its last call a look at the pod that finds it running.
  pub wait_for_pod_running_sees :
      (ns name : String) (timeout : ℕ) (h h' : History)
      → wait_for_pod_running e ns name timeout h ≡ (ok none, h')
      → (g : History) × ((e.pod g ns name).error ≡ none)
        × ((e.pod g ns name).value.phase ≡ running)
        × (h' ≡ Call.get_pod ns name ∷ g)
  unfolding wait_for_pod_running is_pod_running ◌>>=◌
  wait_for_pod_running_sees ns name timeout h h' q =
      let (g, p) = Polled-true (polls.polled 1 timeout (is_pod_running e name ns) h) q in
      (g, ground arith, ground arith, ground arith)

  -- If the polling loop does what its documentation says, a wait for a TCP port that ends without an
  -- error has as its last call a probe that succeeds.
  pub wait_for_tcp_ready_sees :
      (host : String) (port timeout : ℕ) (h h' : History)
      → wait_for_tcp_ready e host port timeout h ≡ (ok none, h')
      → (g : History) × ((e.probed_tcp g host port).error ≡ none)
        × ((e.probed_tcp g host port).value ≡ probe_success)
        × (h' ≡ Call.probe_tcp host port ∷ g)
  unfolding wait_for_tcp_ready is_tcp_ready ◌>>=◌
  wait_for_tcp_ready_sees host port timeout h h' q =
      let (g, p) = Polled-true (polls.polled 1 timeout (is_tcp_ready e host port) h) q in
      (g, ground arith, ground arith, ground arith)

  -- A pod that runs at the first look ends the wait for it at once.
  pub wait_for_pod_running_at_once :
      (ns name : String) (timeout : ℕ) (h : History)
      → (e.pod h ns name).error ≡ none
      → (e.pod h ns name).value.phase ≡ running
      → wait_for_pod_running e ns name timeout h ≡ (ok none, Call.get_pod ns name ∷ h)
  unfolding wait_for_pod_running is_pod_running ◌>>=◌
  wait_for_pod_running_at_once ns name timeout h found runs =
      Polled-at_once (polls.polled 1 timeout (is_pod_running e name ns) h) (ground arith)

  -- A port that answers the first probe ends the wait for it at once.
  pub wait_for_tcp_ready_at_once :
      (host : String) (port timeout : ℕ) (h : History)
      → (e.probed_tcp h host port).error ≡ none
      → (e.probed_tcp h host port).value ≡ probe_success
      → wait_for_tcp_ready e host port timeout h ≡ (ok none, Call.probe_tcp host port ∷ h)
  unfolding wait_for_tcp_ready is_tcp_ready ◌>>=◌
  wait_for_tcp_ready_at_once host port timeout h fine success =
      Polled-at_once (polls.polled 1 timeout (is_tcp_ready e host port) h) (ground arith)
