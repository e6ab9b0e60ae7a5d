-- ===== src/Tests/Spacing.antt =====
-- A call that sends twice, with the backoff of half a second that a new breaker has.
use circuit_breaker.Base.{true, ◌+◌, ◌*◌, ◌≤◌, none, some, arith}
use circuit_breaker.Base.Int.{pos}
use circuit_breaker.Circuit.{Circuit, new_circuit}
use circuit_breaker.Options.{backoff_for}
use circuit_breaker.Request.{Request, do_request}
use circuit_breaker.Request.Tally.{tally, one_sent}
use circuit_breaker.Request.Spacing.{nap, IsSpaced}
use circuit_breaker.Request.Spacing.Calls.{do_request-IsSpaced}
use circuit_breaker.Tests.Calls.{env, upload}

abbrev two_retries : Circuit
two_retries = new_circuit "b" (pos 1) (pos 0) (pos 0) (pos 2)

abbrev download : Request
download = record upload { can_rewind = true }

do_request-IsSpaced_example :
    IsSpaced 500_000_000 0 (do_request two_retries (some download) none env).trace
    × (500_000_000 * tally one_sent (do_request two_retries (some download) none env).trace
        ≤ tally nap (do_request two_retries (some download) none env).trace + 500_000_000)
unfolding backoff_for new_circuit
do_request-IsSpaced_example =
    do_request-IsSpaced two_retries (some download) none env 500_000_000 (λ n. omega arith)
