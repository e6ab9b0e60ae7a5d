-- ===== src/Tests/Figures.antt =====
-- Rings, wheels and metrics with whole numbers in place of `float64`.
use circuit_breaker.Base.{ℕ, ◌+◌, ◌-◌, ◌*◌, ◌/◌, ◌%◌, ◌^◌, ◌≡◌, List, [], ◌∷◌, some, arith, length}
use circuit_breaker.Base.Int.{ℤ, pos, negsuc}
use circuit_breaker.Float.{Float}
use circuit_breaker.Ring.{ring_size}
use circuit_breaker.Ring.Window.{last_of}
use circuit_breaker.Ring.Mean.{IsExact}
use circuit_breaker.Wheel.{count_last, record_at, advance}
use circuit_breaker.Wheel.Recent.{recent, wheel_of, count_last-recent}
use circuit_breaker.Endpoint.{Update, attempt, token_cancel, snapshot}
use circuit_breaker.Endpoint.Events.{oldest_first, duration_of}
use circuit_breaker.Endpoint.History.{
  requests, events_of, cancellations, shown, endpoint_of, RatiosShown, snapshot-events_of,
  snapshot_ratios,
}
use circuit_breaker.Metrics.{Metrics}
use circuit_breaker.Metrics.Runs.{Call, run, EveryHost, run-IsSound}

abbrev whole_of : ℤ → ℕ
whole_of (pos n) = n
whole_of (negsuc n) = 0

abbrev pub whole : Float ℕ
whole = record {
  zero = 0;
  add = λ x y. x + y;
  sub = λ x y. x - y;
  mul = λ x y. x * y;
  div = λ x y. x / y;
  of_int = whole_of;
  seconds = λ d. whole_of d / 1_000_000_000;
  round_int = λ x. pos x;
}

whole-IsExact : IsExact whole
whole-IsExact = record {
  zero-add = λ x. omega arith;
  add-zero = λ x. omega arith;
  add_assoc = λ x y z. omega arith;
  sub-add = λ x y. omega arith;
}

abbrev samples : List ℕ
samples = 3 ∷ 4 ∷ 8 ∷ []

abbrev seconds_log : List ℕ
seconds_log = 1_000 ∷ 990 ∷ 940 ∷ []

count_last-recent_example :
    (count_last 1_001 60 (wheel_of seconds_log)).0 ≡ recent 1_001 60 seconds_log
unfolding wheel_of record_at advance
count_last-recent_example =
    count_last-recent 1_001 60 seconds_log (omega arith, (omega arith, (omega arith, tt)))
      (omega arith) (omega arith) (omega arith)

abbrev second_at : ℕ → ℤ
second_at n = pos (n * 1_000_000_000)

abbrev updates : List (Update × ℤ)
updates =
    (token_cancel, second_at 1_004)
    ∷ (attempt (second_at 1_001) (second_at 1_003), second_at 1_003)
    ∷ (attempt (second_at 1_000) (second_at 1_002), second_at 1_002)
    ∷ []

snapshot-events_of_example :
    ((shown requests (snapshot whole (pos 0) (endpoint_of whole (pos 0) updates))).count
      ≡ length (events_of requests updates) % 2 ^ 64)
    × ((shown requests (snapshot whole (pos 0) (endpoint_of whole (pos 0) updates))).times
        ≡ last_of ring_size
            (oldest_first whole (pos 0) (duration_of whole (pos 0)) (events_of requests updates)))
    × ((shown requests (snapshot whole (pos 0) (endpoint_of whole (pos 0) updates))).start_times
        ≡ last_of ring_size
            (oldest_first whole (pos 0) (λ e. e.start) (events_of requests updates)))
    × ((snapshot whole (pos 0) (endpoint_of whole (pos 0) updates)).token_wait_cancellations
        ≡ cancellations updates % 2 ^ 64)
snapshot-events_of_example = snapshot-events_of whole (pos 0) requests updates

snapshot_ratios_example :
    RatiosShown whole
      (pos 0)
      (shown requests (snapshot whole (pos 0) (endpoint_of whole (pos 0) updates)))
      (events_of requests updates)
snapshot_ratios_example =
    snapshot_ratios whole (pos 0) requests updates
      (omega arith, omega arith, omega arith, (omega arith, omega arith, omega arith, tt))
      (omega arith)

abbrev calls : List Call
calls =
    record {
      host = "h";
      endpoint = "/a";
      update = attempt (pos 1) (pos 2);
      now = pos 2;
      now' = pos 3;
    }
    ∷ record { host = "h"; endpoint = "/b"; update = token_cancel; now = pos 4; now' = pos 5 }
    ∷ []

run-IsSound_example :
    (m : Metrics whole (pos 0)) × (run whole (pos 0) calls [] ≡ some m) × EveryHost whole (pos 0) m
run-IsSound_example = run-IsSound whole (pos 0) calls
