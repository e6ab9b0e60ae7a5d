-- ===== src/Bucket.antt =====
-- The token bucket at work: what takes tokens and what puts them back, in any order.
-- pkg/circuitbreaker.go, `waitForToken` and the goroutine of `startTokenBucket`.
pub mod Rate
use circuit_breaker.Base.{
  ℕ, zero, suc, ◌+◌, ◌-◌, ◌*◌, ◌≤◌, Bool, true, false, Option, none, some, List, [], ◌∷◌,
  if◌then◌else◌, ltb,
}
use circuit_breaker.Errors.{Err, stopped}
use circuit_breaker.Circuit.{Channel, refill}

-- What the blocking `select` of `waitForToken` ends with: the context's error, the closed stop channel,
-- a token, or nothing so far. The bucket was empty before it.
pub data Woken : Type 0 where
  context_done : Err → Woken
  stop_closed token_arrived never : Woken

-- `none`: still waiting. Otherwise the error or nil, with the bucket after the call. `ctx_err` is
-- `ctx.Err()` at the start. A token that arrives in a blocking `select` is one that the refill has just
-- put into the bucket, so that the bucket is left as empty as it was.
unfoldable pub wait_for_token :
    Option Err → Woken → Option Channel → Option (Option Err × Option Channel)
wait_for_token ctx_err woken none = some (none, none)
wait_for_token (some e) woken (some c) = some (some e, some c)
wait_for_token none woken (some c) =
    if ltb 0 c.held then some (none, some (record c { held = c.held - 1 })) else elim woken [
      | context_done e ↦ some (some e, some c)
      | stop_closed ↦ some (some stopped, some c)
      | token_arrived ↦ some (none, some c)
      | never ↦ none
    ]

-- Steps of the bucket: a tick of the refiller, or a receive from the channel, which is possible only
-- while it holds a token.
pub data Step : Type 0 where
  tick receive : Step

-- `none`: the receive blocks.
unfoldable pub step : ℕ → Step → Channel → Option Channel
step per_tick tick c = some (refill per_tick c)
step per_tick receive c = if ltb 0 c.held then some (record c { held = c.held - 1 }) else none

unfoldable pub run : ℕ → List Step → Channel → Option Channel
run per_tick [] c = some c
run per_tick (s ∷ ss) c = elim (step per_tick s c) [ none ↦ none | some c' ↦ run per_tick ss c' ]
