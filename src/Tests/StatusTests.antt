-- ===== src/Tests/StatusTests.antt =====
-- The retry of the queue and its alert over a few events.
use blend_pos.Prelude.{◌≡◌, ◌≤◌, List, [], ◌∷◌, true, false}
use blend_pos.Offline.Status.{
  StatusOp, attempts, polls, goes_online, run_status, first_status, base_interval_ms,
  max_interval_ms, crossings, polled, run_status_alerts,
}

abbrev outage : List StatusOp
outage =
    attempts true false
    ∷ polls 120 0
    ∷ polls 130 0
    ∷ polls 90 0
    ∷ polls 101 2
    ∷ goes_online true true
    ∷ []

run_status_alerts_example :
    (base_interval_ms ≤ (run_status first_status outage).interval)
    × ((run_status first_status outage).interval ≤ max_interval_ms)
    × ((run_status first_status outage).shown ≡ crossings false (polled outage))
run_status_alerts_example = run_status_alerts outage
