-- ===== src/Tests/Limits.antt =====
-- The bucket, the waits and the headers.
use Prim.Native.Nat.{min}
use circuit_breaker.Base.{
  ℕ, ◌+◌, ◌-◌, ◌*◌, ◌/◌, ◌^◌, ◌≤◌, ◌<◌, ◌≡◌, ◌↔◌, refl, List, [], ◌∷◌, true, false, Option, none,
  some, arith,
}
use circuit_breaker.Base.Int.{ℤ, pos, ◌≤ℤ◌, ◌<ℤ◌, ◌*ℤ◌}
use circuit_breaker.Base.Words.{max_int64, int64}
use circuit_breaker.Circuit.{Circuit, Channel, new_circuit}
use circuit_breaker.Circuit.{refill}
use circuit_breaker.Options.{with_exponential_backoff, backoff_for, double_until}
use circuit_breaker.Options.Backoff.{backoff_for_lem}
use circuit_breaker.Bucket.{Step, tick, receive, run, step}
use circuit_breaker.RetryAfter.{parse_retry_after, Round, elapsed, wait_retry_after_gate}
use circuit_breaker.RetryAfter.Seconds.{decimal_value, parse_retry_after-digits}
use circuit_breaker.RetryAfter.Gate.{Passes, wait_retry_after_gate-Passes}

abbrev limited : Circuit
limited = new_circuit "a" (pos 2) (pos 10) (pos 1) (pos 3)

abbrev draw : ℕ → ℕ
draw k = k - 1

abbrev waiting_long : Circuit
waiting_long = with_exponential_backoff (pos 100) (pos 1_000) true limited

backoff_for_lem_example :
    (true ≡ false
      → backoff_for draw waiting_long 5 ≡ pos (min (Prim.Native.Nat.max 100 1_000) (100 * 2 ^ 5)))
    × (true ≡ true
        → (pos (min (Prim.Native.Nat.max 100 1_000) (100 * 2 ^ 5) / 2)
            ≤ℤ backoff_for draw waiting_long 5)
          × (backoff_for draw waiting_long 5
              ≤ℤ pos (min (Prim.Native.Nat.max 100 1_000) (100 * 2 ^ 5)))
          × (1 < min (Prim.Native.Nat.max 100 1_000) (100 * 2 ^ 5)
              → backoff_for draw waiting_long 5
                <ℤ pos (min (Prim.Native.Nat.max 100 1_000) (100 * 2 ^ 5))))
backoff_for_lem_example =
    backoff_for_lem draw 100 1_000 5 true limited (λ k h. omega arith) (omega arith) (omega arith)
      (omega arith)

-- A ceiling above 2 ^ 62 ns: the second doubling wraps, and the wait is 4 ns.
wrapped :
    backoff_for draw (with_exponential_backoff (pos (2 ^ 62 + 1)) max_int64 false limited) 2 ≡ pos 4
unfolding backoff_for with_exponential_backoff double_until int64 ◌*ℤ◌
wrapped = refl

abbrev three : Channel
three = record { capacity = 3; held = 1 }

abbrev steps : List Step
steps = receive ∷ tick ∷ tick ∷ receive ∷ []

abbrev left : Channel
left = record { capacity = 3; held = 1 }

steps-run : run 1 steps three ≡ some left
unfolding run step refill
steps-run = refl

-- "120"
abbrev two_minutes : List ℕ
two_minutes = 49 ∷ 50 ∷ 48 ∷ []

abbrev no_date : List ℕ → Option ℤ
no_date h = none

parse_retry_after-digits_example :
    (decimal_value two_minutes < 2 ^ 63
      → parse_retry_after no_date two_minutes (pos 5)
        ≡ some (pos (min (decimal_value two_minutes * 1_000_000_000) (2 ^ 63 - 1))))
    × (2 ^ 63 ≤ decimal_value two_minutes
        → no_date two_minutes ≡ none
        → parse_retry_after no_date two_minutes (pos 5) ≡ none)
parse_retry_after-digits_example =
    parse_retry_after-digits no_date 49 (50 ∷ 48 ∷ []) (pos 5) (refl, (refl, (refl, tt)))

abbrev gate_rounds : List Round
gate_rounds =
    record { gate = pos 10; now = pos 5; wake = elapsed }
    ∷ record { gate = pos 10; now = pos 11; wake = elapsed }
    ∷ []

wait_retry_after_gate-Passes_example :
    (wait_retry_after_gate (pos 100) gate_rounds ≡ some none) ↔ Passes gate_rounds
wait_retry_after_gate-Passes_example =
    wait_retry_after_gate-Passes (pos 100) gate_rounds (omega arith)
