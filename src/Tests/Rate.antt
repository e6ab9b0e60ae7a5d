-- ===== src/Tests/Rate.antt =====
-- A call of `Do` on a breaker with one token, and a tick of the refill.
use circuit_breaker.Base.{
  ℕ, ◌+◌, ◌-◌, ◌*◌, ◌/◌, ◌<◌, ◌≤◌, ◌≡◌, ◌≢◌, refl, [], ◌∷◌, ◌++◌, List, some, this, arith, true,
  false,
}
use circuit_breaker.Base.Int.{pos}
use circuit_breaker.Breaker.{allow}
use circuit_breaker.Circuit.{Circuit, new_circuit, refill}
use circuit_breaker.Endpoint.{attempt}
use circuit_breaker.Request.{
  asked, acquired, took_token, recorded, sent, waiting, Action, with_slot, with_breaker, tells,
  attempts_from, attempt_once, with_token, rewind_and_send, send, on_failure,
}
use circuit_breaker.RetryAfter.{wait_retry_after_gate}
use circuit_breaker.Bucket.{wait_for_token}
use circuit_breaker.Errors.{is_retryable}
use circuit_breaker.Shared
use circuit_breaker.Shared.{effect, System, Reach, enter, act, tick}
use circuit_breaker.Shared.Rate.{owed_all, sends, added, sends_in_window}
use circuit_breaker.Request.Guards.{with_breaker_reports}
use circuit_breaker.Tests.Machine.{fresh}
use circuit_breaker.Tests.Calls.{guarded, upload, env, admitted}

abbrev pub paced : Circuit
paced = record guarded {
  refilling = true;
  tokens_per_tick = pos 1;
  tokens = some (record { capacity = 3; held = 1 });
}

pub paced_returns : (with_slot paced upload env).ending ≢ waiting
unfolding with_slot new_circuit attempts_from attempt_once wait_retry_after_gate with_token
    wait_for_token rewind_and_send send on_failure is_retryable
paced_returns e = absurd (cc)

-- The call gets its slot and its token, and sends.
pub goes_out :
    (rest : List Action) × ((with_slot paced upload env).trace
        ++ tells paced upload env fresh (with_slot paced upload env).ending
      ≡ acquired ∷ took_token ∷ recorded (attempt (pos 0) (pos 0)) ∷ sent ∷ rest)
unfolding with_slot new_circuit attempts_from attempt_once wait_retry_after_gate with_token
    wait_for_token rewind_and_send send on_failure is_retryable
goes_out = (_, refl)

-- The system with this call, and the channels of the semaphore and of the bucket.
abbrev pub at_stage : ℕ → ℕ → ℕ → List Action → System
at_stage sem tokens slots left = record {
  circuit = record paced {
    state = some (allow (pos 105) fresh).1;
    sem = some (record { capacity = 2; held = sem });
    tokens = some (record { capacity = 3; held = tokens });
  };
  calls =
      record { req = upload; admission = (allow (pos 105) fresh).0; slots = slots; left = left }
      ∷ [];
}

sending :
    (trace : List Action)
    → (with_breaker paced upload env).trace ≡ asked (pos 105) ∷ trace
    → (rest : List Action)
    → trace ≡ acquired ∷ took_token ∷ recorded (attempt (pos 0) (pos 0)) ∷ sent ∷ rest
    → Reach (record { circuit = paced; calls = [] }) 6 (at_stage 1 1 1 rest)
unfolding effect new_circuit refill
sending trace e rest q =
    let s0 = Shared.next Shared.here (enter upload env refl admitted e refl) in
    let s1 = Shared.next s0 (act this q refl refl) in
    let s2 = Shared.next s1 (act this refl refl refl) in
    let s3 = Shared.next s2 (act this refl refl refl) in
    let s4 = Shared.next s3 (act this refl refl refl) in
    Shared.next s4 (tick (record { capacity = 3; held = 0 }) refl refl (omega arith))

abbrev pub start : System
start = record { circuit = paced; calls = [] }

pub one_call : Reach start 6 (at_stage 1 1 1 goes_out.0)
one_call =
    let report = with_breaker_reports paced upload env fresh refl admitted paced_returns in
    sending _ report.0 goes_out.0 goes_out.1

sends_in_window_example :
    (sends one_call ≤ owed_all start.calls + 1 + added one_call)
    × (start.circuit.refilling ≡ false → added one_call ≡ 0)
    × ((w m : ℕ)
        → 0 < m
        → m ≤ w / m
        → (added one_call - 1) * (w / m) < w
        → sends one_call ≤ owed_all start.calls + 3 + m + 1)
sends_in_window_example = sends_in_window refl (omega arith) one_call
