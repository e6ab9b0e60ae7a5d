-- ===== src/Tests/Progress.antt =====
-- A call of `Do` that has just been let in, on a breaker with both limits.
use circuit_breaker.Base.{
  ◌+◌, inl, ℕ, ◌*◌, ◌≤◌, ◌≡◌, ◌≢◌, refl, ap, some, ◌++◌, [], ◌∷◌, All, arith,
}
use circuit_breaker.Breaker.{allow}
use circuit_breaker.Circuit.{new_circuit}
use circuit_breaker.Request.{
  waiting, with_slot, with_breaker, tells, attempts_from, attempt_once, with_token, rewind_and_send,
  send, on_failure,
}
use circuit_breaker.Base.Int.{pos}
use circuit_breaker.Request.Tally.{tally, one_acquired, one_released}
use circuit_breaker.Request.Guards.{Frees, with_breaker-Frees, with_breaker_reports}
use circuit_breaker.RetryAfter.{wait_retry_after_gate}
use circuit_breaker.Bucket.{wait_for_token}
use circuit_breaker.Errors.{is_retryable}
use circuit_breaker.Shared
use circuit_breaker.Shared.{effect, System, Reach, enter}
use circuit_breaker.Shared.Slots.{in_use}
use circuit_breaker.Shared.Progress.{work, IsServed, IsReturning}
use circuit_breaker.Shared.Progress.Schedules.{acted, brought}
use circuit_breaker.Shared.Progress.Ready.{calls_wind_up}
use circuit_breaker.Tests.Machine.{fresh}
use circuit_breaker.Tests.Calls.{upload, env, admitted}
use circuit_breaker.Tests.Rate.{paced, paced_returns, start}

abbrev let_in : System
let_in = record {
  circuit = record paced { state = some (allow (pos 105) fresh).1 };
  calls =
      record {
        req = upload;
        admission = (allow (pos 105) fresh).0;
        slots = 0;
        left =
            (with_slot paced upload env).trace
            ++ tells paced upload env fresh (with_slot paced upload env).ending;
      }
      ∷ [];
}

enters : Reach start 1 let_in
unfolding effect
enters = Shared.next Shared.here (
    enter upload env refl admitted
      (with_breaker_reports paced upload env fresh refl admitted paced_returns).0 refl)

comes_back : (with_breaker paced upload env).ending ≢ waiting
unfolding with_breaker with_slot new_circuit attempts_from attempt_once wait_retry_after_gate
    with_token wait_for_token rewind_and_send send on_failure is_retryable allow
comes_back e = absurd (cc)

gives_back : All IsReturning let_in.calls
unfolding Frees
gives_back =
    let same = (with_breaker_reports paced upload env fresh refl admitted paced_returns).0 in
    let f = (with_breaker-Frees paced upload env).2 comes_back in
    (omega (arith, f, ap (tally one_acquired) same, ap (tally one_released) same), tt)

served : IsServed start
unfolding new_circuit
served = record {
  seats = omega arith;
  limited = refl;
  depth = omega arith;
  full = omega arith;
  supply = inl refl;
  lot_size = omega arith;
}

free : in_use start.circuit ≡ 0
unfolding new_circuit
free = refl

calls_wind_up_example :
    ((m : ℕ) × (t : System) × Reach let_in m t
      × (m ≤ 2 * work let_in.calls)
      × (work t.calls ≡ 0)
      × (in_use t.circuit ≡ 0))
    × ((m : ℕ) (t : System) (r : Reach let_in m t)
        → acted r + work t.calls ≤ work let_in.calls + brought r)
calls_wind_up_example = calls_wind_up free refl served enters (inl refl) gives_back
