-- ===== src/Tests/Machine.antt =====
-- The machine of pkg/state.go: a threshold of 2, a wait of 10 and one probe.
use circuit_breaker.Base.{◌≤◌, ◌≡◌, ◌≢◌, ◌↔◌, refl, List, [], ◌∷◌, none, some, arith}
use circuit_breaker.Base.Int.{ℤ, pos, ◌≤ℤ◌, ◌<ℤ◌}
use circuit_breaker.Errors.{circuit_open}
use circuit_breaker.Breaker.{
  state_closed, state_open, state_half_open, Outcome, outcome_failure, outcome_neutral,
  outcome_success, Breaker, new_breaker_state, allow,
}
use circuit_breaker.Breaker.Gatekeeping.{IsConfigured, FailsFast, allow_refuses_iff}
use circuit_breaker.Breaker.Streak.{reports, Reaches, reports_open_iff}
use circuit_breaker.Breaker.Concurrent.{here, next, admit, System, start, probes_of, probes_bounded}

abbrev pub fresh : Breaker
fresh = record {
  threshold = pos 2;
  open_for = pos 10;
  max_probes = pos 1;
  cur = state_closed;
  consec_fails = pos 0;
  opened_at = pos 0;
  probes = pos 0;
  gen = 0;
  half_open_at = pos 0;
}

abbrev pub opened : Breaker
opened = record fresh { cur = state_open; opened_at = pos 100; consec_fails = pos 2 }

abbrev probing : Breaker
probing = record opened { cur = state_half_open; half_open_at = pos 110; gen = 1; probes = pos 1 }

configured :
    (b : Breaker)
    → b.threshold ≡ pos 2
    → b.open_for ≡ pos 10
    → b.max_probes ≡ pos 1
    → IsConfigured b
configured b t o m = record {
  some_threshold = ground arith;
  some_wait = ground arith;
  wait_fits = ground arith;
  some_probes = ground arith;
}

allow_refuses_iff_example :
    (((allow (pos 105) opened).0.error ≢ none) ↔ FailsFast (pos 105) opened)
    × ((allow (pos 105) opened).0.error ≢ none
        → (allow (pos 105) opened).0.error ≡ some circuit_open)
    × ((allow (pos 105) opened).0.error ≢ none → (allow (pos 105) opened).1 ≡ opened)
allow_refuses_iff_example = allow_refuses_iff (pos 105) opened (configured opened refl refl refl)

abbrev outcomes : List (ℤ × Outcome)
outcomes =
    (pos 1, outcome_failure)
    ∷ (pos 2, outcome_success)
    ∷ (pos 3, outcome_failure)
    ∷ (pos 4, outcome_neutral)
    ∷ (pos 5, outcome_failure)
    ∷ []

reports_open_iff_example :
    ((reports (new_breaker_state (pos 0) (pos 2) (pos 10) (pos 1)) outcomes).cur ≡ state_open)
    ↔ Reaches 2 0 outcomes
reports_open_iff_example = reports_open_iff (pos 0) 2 (pos 10) (pos 1) outcomes (omega arith)

abbrev from : System
from = start (pos 0) (pos 2) (pos 10) (pos 1)

admitted : (allow (pos 1) (new_breaker_state (pos 0) (pos 2) (pos 10) (pos 1))).0.error ≡ none
unfolding allow new_breaker_state
admitted = refl

abbrev one_running : System
one_running = record {
  machine = (allow (pos 1) from.machine).1;
  running = (allow (pos 1) from.machine).0 ∷ [];
}

probes_bounded_example :
    (one_running.machine.cur ≡ state_half_open
      → (one_running.machine.probes ≡ pos (probes_of one_running.machine.gen one_running.running))
        × (pos (probes_of one_running.machine.gen one_running.running) ≤ℤ from.machine.max_probes))
    × (one_running.machine.cur ≡ state_closed
        → (pos 0 ≤ℤ one_running.machine.consec_fails)
          × (one_running.machine.consec_fails <ℤ from.machine.threshold))
    × (one_running.machine.gen ≤ 1)
probes_bounded_example =
    probes_bounded (pos 0) (pos 2) (pos 10) (pos 1) (omega arith)
      (next here (admit (pos 1) admitted))
