-- ===== src/Tests/Calls.antt =====
-- Calls of `Do` with two retries: the transport times out, and then answers.
use circuit_breaker.Base.{ℕ, zero, suc, ◌≤◌, ◌≡◌, ◌≢◌, refl, [], true, false, none, some}
use circuit_breaker.Base.Int.{pos}
use circuit_breaker.Errors.{deadline_exceeded, is_retryable}
use circuit_breaker.Breaker.{allow}
use circuit_breaker.Circuit.{Circuit, new_circuit}
use circuit_breaker.Bucket.{token_arrived, wait_for_token}
use circuit_breaker.RetryAfter.{wait_retry_after_gate}
use circuit_breaker.Request.{
  Request, Attempt, Env, responds, fails, granted, waiting, attempts_from, with_slot, attempt_once,
  with_token, rewind_and_send, send, on_failure, do_request, rounds,
}
use circuit_breaker.Request.Tally.{tally, one_sent}
use circuit_breaker.Request.Accounting.{Adds, do_request-Adds}
use circuit_breaker.Request.Limits.{do_request_sends_once}
use circuit_breaker.Request.Guards.{Frees, do_request-Frees}
use circuit_breaker.Breaker.{Breaker}
use circuit_breaker.Tests.Machine.{fresh}

abbrev answers : ℕ → Attempt
answers n = record {
  start = pos n;
  refused_at = pos n;
  attempted_at = pos n;
  done_at = pos n;
  header_at = pos n;
  gate_at = pos n;
  retry_at = pos n;
  wait_at = pos n;
  gate_rounds = [];
  ctx_err = none;
  bucket = record { capacity = 1; held = 1 };
  woken = token_arrived;
  body_err = none;
  transport = elim n [
    | zero ↦ fails deadline_exceeded
    | suc _ ↦ responds (record { status = pos 200; retry_after = []; has_body = true })
  ];
  interrupted = none;
  draw = λ k. 0;
}

abbrev pub env : Env
env = record {
  asked_at = pos 105;
  reported_at = pos 106;
  slot = granted;
  attempts = answers;
  parse_time = λ h. none;
}

abbrev pub upload : Request
upload = record {
  host = "h";
  path = "/a";
  has_body = true;
  can_rewind = false;
  has_deadline = false;
}

abbrev pub circuit : Circuit
circuit = new_circuit "a" (pos 2) (pos 0) (pos 0) (pos 2)

abbrev pub guarded : Circuit
guarded = record circuit { state = some fresh }

do_request-Adds_example :
    Adds (rounds circuit.max_retries) (do_request circuit (some upload) none env)
do_request-Adds_example = do_request-Adds circuit upload none env

do_request-Frees_example : Frees (do_request circuit (some upload) none env)
do_request-Frees_example = do_request-Frees circuit upload none env

do_request_sends_once_example : tally one_sent (do_request circuit (some upload) none env).trace ≤ 1
do_request_sends_once_example = do_request_sends_once circuit upload none env refl refl

pub admitted : (allow (pos 105) fresh).0.error ≡ none
unfolding allow
admitted = refl

pub returns : (with_slot guarded upload env).ending ≢ waiting
unfolding with_slot attempts_from attempt_once with_token rewind_and_send send on_failure
    wait_retry_after_gate wait_for_token new_circuit is_retryable
returns e = absurd (cc)
