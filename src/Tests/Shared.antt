-- ===== src/Tests/Shared.antt =====
-- Calls of `Do` whose actions interleave.
use circuit_breaker.Base.{ℕ, ◌≤◌, ◌≡◌, ◌≢◌, refl, [], ◌∷◌, ◌++◌, List, some, none, arith}
use circuit_breaker.Base.Int.{pos, ◌≤ℤ◌, ◌<ℤ◌}
use circuit_breaker.Breaker.{Breaker, allow, new_breaker_state, state_half_open, state_closed}
use circuit_breaker.Breaker.Concurrent
use circuit_breaker.Circuit.{new_circuit}
use circuit_breaker.Request.{
  asked, gate_extended, acquired, released, Action, with_slot, tells, attempts_from, attempt_once,
  with_token, rewind_and_send, send, on_failure,
}
use circuit_breaker.RetryAfter.{wait_retry_after_gate}
use circuit_breaker.Bucket.{wait_for_token}
use circuit_breaker.Errors.{is_retryable}
use circuit_breaker.Shared
use circuit_breaker.Shared.{effect, unasked, System, Call, Step, Reach, enter, act}
use circuit_breaker.Shared.Machine.{machine_of, calls-Reach}
use circuit_breaker.Shared.Probes.{probes_in, probes_in_flight}
use circuit_breaker.Shared.Gate.{gate_of, IsUpTo, pauses, gate_covers}
use circuit_breaker.RetryAfter.{extend_gate}
use circuit_breaker.Shared.Slots.{in_use, room, slots_of, slots_exact}
use circuit_breaker.Request.Guards.{with_breaker_reports}
use circuit_breaker.Base.{Without, this, All}
use circuit_breaker.Tests.Machine.{fresh}
use circuit_breaker.Tests.Calls.{guarded, upload, env, admitted, returns}

abbrev idle : System
idle = record { circuit = guarded; calls = [] }

abbrev entered : System
entered = record {
  circuit = record guarded { state = some (allow (pos 105) fresh).1 };
  calls =
      record {
        req = upload;
        admission = (allow (pos 105) fresh).0;
        slots = 0;
        left =
            (with_slot guarded upload env).trace
            ++ tells guarded upload env fresh (with_slot guarded upload env).ending;
      }
      ∷ [];
}

asks : effect (asked (pos 105)) guarded ≡ some entered.circuit
unfolding effect
asks = refl

-- The call gets a slot.
taken :
    (rest : List Action) × ((with_slot guarded upload env).trace
        ++ tells guarded upload env fresh (with_slot guarded upload env).ending
      ≡ acquired ∷ rest)
unfolding with_slot new_circuit attempts_from attempt_once wait_retry_after_gate with_token
    wait_for_token rewind_and_send send on_failure is_retryable
taken = (_, refl)

abbrev inside : System
inside = record {
  circuit = record guarded {
    state = some (allow (pos 105) fresh).1;
    sem = some (record { capacity = 2; held = 1 });
  };
  calls =
      record { req = upload; admission = (allow (pos 105) fresh).0; slots = 1; left = taken.0 }
      ∷ [];
}

acquires : effect acquired entered.circuit ≡ some inside.circuit
unfolding effect new_circuit
acquires = refl

-- One goroutine asks the machine and takes a slot.
run : Reach idle 2 inside
run =
    let report = with_breaker_reports guarded upload env fresh refl admitted returns in
    let begun = Shared.next Shared.here (enter upload env refl admitted report.0 asks) in
    Shared.next begun (act this taken.1 refl acquires)

calls-Reach_example :
    (b : Breaker) × (k : ℕ) × (inside.circuit.state ≡ some b)
    × (k ≤ 2)
    × Concurrent.Reach (record { machine = fresh; running = [] }) k (machine_of inside b)
calls-Reach_example = calls-Reach fresh refl refl run

machine_new : idle.circuit.state ≡ some (new_breaker_state (pos 0) (pos 2) (pos 10) (pos 1))
unfolding new_breaker_state new_circuit
machine_new = refl

probes_in_flight_example :
    (b : Breaker) × (inside.circuit.state ≡ some b)
    × (b.cur ≡ state_half_open
        → (b.probes ≡ pos (probes_in b.gen inside.calls))
          × (pos (probes_in b.gen inside.calls)
              ≤ℤ (new_breaker_state (pos 0) (pos 2) (pos 10) (pos 1)).max_probes))
    × (b.cur ≡ state_closed
        → b.consec_fails <ℤ (new_breaker_state (pos 0) (pos 2) (pos 10) (pos 1)).threshold)
probes_in_flight_example =
    probes_in_flight (pos 0) (pos 2) (pos 10) (pos 1) machine_new refl (omega arith) run

free : in_use guarded ≡ 0
unfolding new_circuit
free = refl

slots_exact_example :
    (in_use inside.circuit ≡ slots_of inside.calls)
    × (slots_of inside.calls ≤ room guarded)
    × ((call : Call) (others : List Call) (left : List Action)
        → Without call inside.calls others
        → call.left ≡ released ∷ left
        → effect released inside.circuit ≢ none)
slots_exact_example = slots_exact free refl run

-- A call that has been asked to pause.
abbrev asked_to_pause : System
asked_to_pause = record {
  circuit = guarded;
  calls =
      record { req = upload; admission = unasked; slots = 0; left = gate_extended (pos 9) ∷ [] }
      ∷ [];
}

abbrev pausing : System
pausing = record {
  circuit = record guarded { retry_after_until = pos 9 };
  calls = record { req = upload; admission = unasked; slots = 0; left = [] } ∷ [];
}

pauses_once : Reach asked_to_pause 1 pausing
unfolding effect extend_gate new_circuit
pauses_once = Shared.next Shared.here (act this refl refl refl)

gate_covers_example :
    (gate_of asked_to_pause ≤ℤ gate_of pausing)
    × All (IsUpTo (gate_of pausing)) (pauses pauses_once)
gate_covers_example = gate_covers pauses_once
