-- ===== src/Tests/Recorded.antt =====
-- The metrics of a call of `Do` that has sent its request.
use circuit_breaker.Base.{◌+◌, ◌%◌, ◌^◌, ◌≤◌, ◌≡◌, refl, some, []}
use Prim.Native.String.{String}
use circuit_breaker.Base.Int.{pos}
use circuit_breaker.Metrics.{Metrics}
use circuit_breaker.Metrics.Runs.{
  EveryHost, run, total_requests, successful_requests, failed_requests,
}
use circuit_breaker.Request.Recordings.{root_total}
use circuit_breaker.Request.Tally.{one_sent, one_attempt, one_outcome}
use circuit_breaker.Shared.Recorded.{made, recordings}
use circuit_breaker.Shared.Recorded.Totals.{recordings_count}
use circuit_breaker.Tests.Figures.{whole}
use circuit_breaker.Tests.Rate.{one_call}
use circuit_breaker.Tests.Metered.{clock}

recordings_count_example :
    (m : Metrics whole (pos 0)) × (run whole (pos 0) (recordings clock one_call) [] ≡ some m)
    × EveryHost whole (pos 0) m
    × ((h : String)
        → (root_total whole (pos 0) total_requests h m % 2 ^ 64
            ≡ made one_attempt h one_call % 2 ^ 64)
          × ((root_total whole (pos 0) successful_requests h m
                  + root_total whole (pos 0) failed_requests h m)
                % 2 ^ 64
              ≡ made one_outcome h one_call % 2 ^ 64)
          × (made one_sent h one_call ≤ made one_attempt h one_call))
recordings_count_example = recordings_count whole (pos 0) clock one_call refl
