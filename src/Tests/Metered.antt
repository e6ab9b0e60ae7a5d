-- ===== src/Tests/Metered.antt =====
-- A call of `Do` to its end, and its metrics.
use circuit_breaker.Base.{
  ℕ, ◌+◌, ◌≤◌, ◌≡◌, ◌≢◌, refl, suc, some, none, List, [], ◌∷◌, map, ◌++◌, true, ◌%◌, ◌^◌,
}
use Prim.Native.String.{String}
use circuit_breaker.Base.Int.{ℤ, pos}
use circuit_breaker.Dict.{lookup}
use circuit_breaker.Metrics.{Metrics}
use circuit_breaker.Metrics.Runs.{
  EveryHost, run, Counter, total_requests, successful_requests, failed_requests,
}
use circuit_breaker.Circuit.{Circuit}
use circuit_breaker.Request.Context.{Event, does, deadline}
use circuit_breaker.Request.Timeout.{timeout_applies}
use circuit_breaker.Request.{do_request, rounds, Run}
use circuit_breaker.Request.Stages.{unfinished_at}
use circuit_breaker.Request.Recordings.{calls_of, root_total}
use circuit_breaker.Request.Metered.{do_request-Counted}
use circuit_breaker.Tests.Calls.{circuit, upload, env}
use circuit_breaker.Tests.Figures.{whole}

nothing_yet : EveryHost whole (pos 0) []
unfolding lookup
nothing_yet h hm e = absurd (cc)

abbrev pub clock : ℕ → ℤ
clock n = pos (1_000 + n)

-- The count in "::root" of the host.
abbrev count : Counter → Metrics whole (pos 0) → ℕ
count c m = root_total whole (pos 0) c "h" m

do_request-Counted_example :
    (m' : Metrics whole (pos 0)) × (t : ℕ) × (o : ℕ) × (run whole
        (pos 0)
        (calls_of upload clock 0 (do_request circuit (some upload) none env).trace)
        []
      ≡ some m')
    × EveryHost whole (pos 0) m'
    × ((j : String) → "h" ≢ j → lookup j m' ≡ none)
    × (count total_requests m' % 2 ^ 64 ≡ (count total_requests [] + t) % 2 ^ 64)
    × ((count successful_requests m' + count failed_requests m') % 2 ^ 64
        ≡ (count successful_requests [] + count failed_requests [] + o) % 2 ^ 64)
    × (t ≤ o + unfinished_at (do_request circuit (some upload) none env).ending)
    × (o + unfinished_at (do_request circuit (some upload) none env).ending ≤ suc t)
    × (t ≤ rounds circuit.max_retries)
    × (o ≤ rounds circuit.max_retries)
unfolding lookup
do_request-Counted_example =
    do_request-Counted whole (pos 0) circuit upload none env clock [] nothing_yet

-- The same with a default timeout.
abbrev timed : Circuit
timed = record circuit { default_timeout = pos 5 }

abbrev timed_run : Run
timed_run = do_request timed (some upload) none env

-- The deadline passes after the call.
abbrev life : List Event
life = map does timed_run.trace ++ deadline ∷ []

its_own : timeout_applies timed upload env (pos 0) ≡ true
its_own = refl
