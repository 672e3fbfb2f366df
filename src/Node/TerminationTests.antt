-- ===== src/Node/TerminationTests.antt =====
-- A run of the theorem on the number of calls.
use csi_driver_nfs_export.Base.{ℕ, ◌+◌, ◌*◌, true, [], Bool, ◌≡◌, refl, arith, leb}
use csi_driver_nfs_export.Api.Objects.{Reply}
use csi_driver_nfs_export.Api.Calls.{History}
use csi_driver_nfs_export.Api.Exec.{Outcome, ok, err, panic, calls}
use csi_driver_nfs_export.Api.Takes.{call_count, PollsInTime}
use csi_driver_nfs_export.Node.Publish.{publish_volume}
use csi_driver_nfs_export.Node.Unpublish.{unpublish_volume}
use csi_driver_nfs_export.Node.Termination.{node_calls_end}
use csi_driver_nfs_export.Scenario.{healthy, finish_poll, publish_request}

finish_poll-calls : (r : Outcome (Reply Bool) × History) → (finish_poll r).1 ≡ r.1
finish_poll-calls (ok r, h) = refl
finish_poll-calls (err c r, h) = refl
finish_poll-calls (panic, h) = refl

within : (a b n t : ℕ) → leb a (b + n) ≡ true → leb a (b + (t + 2) * n) ≡ true
within a b n t q = ground (arith, q)

healthy-PollsInTime : PollsInTime healthy
healthy-PollsInTime = record {
  checks = λ timeout n condition d. record {
    bound = λ h.
        rw (finish_poll-calls (condition h))
          (within (call_count (condition h).1) (call_count h) n timeout (d.bound h));
  };
}

node_calls_end_example :
    (leb (call_count (calls (publish_volume healthy 0 publish_request []))) 378 ≡ true)
    × (leb (call_count (calls (unpublish_volume healthy "nfs-1" "/target" []))) 307 ≡ true)
node_calls_end_example =
    node_calls_end healthy healthy-PollsInTime 0 publish_request "nfs-1" "/target" []
