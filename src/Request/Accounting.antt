-- ===== src/Request/Accounting.antt =====
-- How the sends, the attempts and the outcomes of one call of `Do` add up.
use circuit_breaker.Base.{ℕ, zero, suc, ◌+◌, ◌≤◌, ◌≡◌, refl, arith, Option, none, some, inl, inr}
use circuit_breaker.Errors.{Err}
use circuit_breaker.Circuit.{Circuit}
use circuit_breaker.Base.Int.{ℤ}
use circuit_breaker.Request.{
  Action, Request, Env, Run, Round, leaves, goes_on, attempt_once, attempts_from, is_more, rounds,
  do_request,
}
use circuit_breaker.Request.Tally.{tally, tally-append, one_sent, one_attempt, one_outcome}
use circuit_breaker.Request.Stages.{Settles, attempt_once-Settles, unfinished_at, unfinished_at_one}
use circuit_breaker.Request.Layers.{IsInner, IsLike, FromLoop, do_request-FromLoop}

-- Sends, attempts and outcomes within `left` rounds, where a panic, or a wait without end, counts as an
-- outcome. The one outcome without an attempt is that of a wait for permission to send.
unfoldable Loops : ℕ → Run → Type 0
Loops left r =
    (tally one_sent r.trace ≤ tally one_attempt r.trace)
    × (tally one_attempt r.trace ≤ tally one_outcome r.trace + unfinished_at r.ending)
    × (tally one_outcome r.trace + unfinished_at r.ending ≤ suc (tally one_attempt r.trace))
    × (tally one_outcome r.trace + unfinished_at r.ending ≤ left)

-- The same for a whole call, which may also end or wait without a round of the loop.
unfoldable pub Adds : ℕ → Run → Type 0
Adds left r =
    (tally one_sent r.trace ≤ tally one_attempt r.trace)
    × (tally one_attempt r.trace ≤ tally one_outcome r.trace + unfinished_at r.ending)
    × (tally one_outcome r.trace + unfinished_at r.ending ≤ suc (tally one_attempt r.trace))
    × (tally one_attempt r.trace ≤ left)
    × (tally one_outcome r.trace ≤ left)

module _ (cb : Circuit) (req : Request) (env : Env) where
  round-Loops :
      (left n : ℕ) (last : Option Err) (r : Round)
      → ((e : Option Err) → Loops left (attempts_from cb req env left (suc n) e))
      → attempt_once cb req env (env.attempts n) (is_more left) n last ≡ r
      → Settles r
      → Loops (suc left) (attempts_from cb req env (suc left) n last)
  unfolding attempts_from Loops Settles
  round-Loops left n last (leaves acts ending e) ih q s =
      simp (q, attempts_from)
        (omega (arith, s.0), omega (arith, s.1), omega (arith, s.0, s.1, s.2), omega (arith, s.2))
  round-Loops left n last (goes_on acts e) ih q s =
      let h = ih e in
      let more = attempts_from cb req env left (suc n) e in
      let sends = tally-append one_sent acts more.trace in
      let attempts = tally-append one_attempt acts more.trace in
      let outcomes = tally-append one_outcome acts more.trace in
      simp (q, attempts_from)
        (
          omega (arith, s.0, h.0, sends, attempts),
          omega (arith, s.1, h.1, attempts, outcomes),
          omega (arith, s.2, s.3 refl, h.2, attempts, outcomes),
          omega (arith, s.2, h.3, outcomes),
        )

  attempts_from-Loops :
      (left n : ℕ) (last : Option Err) → Loops left (attempts_from cb req env left n last)
  unfolding attempts_from Loops
  attempts_from-Loops zero n last = (omega arith, omega arith, omega arith, omega arith)
  attempts_from-Loops (suc left) n last =
      round-Loops left n last (attempt_once cb req env (env.attempts n) (is_more left) n last)
        (attempts_from-Loops left (suc n)) refl
        (attempt_once-Settles cb req env (env.attempts n) (is_more left) n last)

pub one_sent-IsInner : IsInner one_sent
one_sent-IsInner = record {
  of_asked = λ t. refl;
  of_acquired = refl;
  of_released = refl;
  of_reported = λ p g t o. refl;
  of_set = λ d. refl;
  of_tied = refl;
  of_cancelled = refl;
}

one_attempt-IsInner : IsInner one_attempt
one_attempt-IsInner = record {
  of_asked = λ t. refl;
  of_acquired = refl;
  of_released = refl;
  of_reported = λ p g t o. refl;
  of_set = λ d. refl;
  of_tied = refl;
  of_cancelled = refl;
}

one_outcome-IsInner : IsInner one_outcome
one_outcome-IsInner = record {
  of_asked = λ t. refl;
  of_acquired = refl;
  of_released = refl;
  of_reported = λ p g t o. refl;
  of_set = λ d. refl;
  of_tied = refl;
  of_cancelled = refl;
}

like-Adds : (k : ℕ) (r s : Run) → IsLike r s → Loops k s → Adds k r
unfolding IsLike Loops Adds
like-Adds k r s l a =
    let sent = l.1 one_sent one_sent-IsInner in
    let attempts = l.1 one_attempt one_attempt-IsInner in
    let outcomes = l.1 one_outcome one_outcome-IsInner in
    (
      omega (arith, a.0, sent, attempts),
      omega (arith, a.1, attempts, outcomes, l.0),
      omega (arith, a.2, attempts, outcomes, l.0),
      omega (arith, a.1, a.3, attempts, l.0),
      omega (arith, a.3, outcomes, l.0),
    )

idle-Adds : (k : ℕ) (r : Run) → ((w : Action → ℕ) → IsInner w → tally w r.trace ≡ 0) → Adds k r
unfolding Adds
idle-Adds k r z =
    let sent = z one_sent one_sent-IsInner in
    let attempts = z one_attempt one_attempt-IsInner in
    let outcomes = z one_outcome one_outcome-IsInner in
    (
      omega (arith, sent),
      omega (arith, attempts),
      omega (arith, outcomes, unfinished_at_one r.ending),
      omega (arith, attempts),
      omega (arith, outcomes),
    )

-- Whatever the clocks, the transport, the waits and the breaker do, a `cl.Do` that never comes back
-- included: in one call of `Do` the sends are at most the recorded attempts; the recorded outcomes,
-- successes and failures, with one more if the call panicked or has not come back, are as many as the
-- recorded attempts or one more; and both attempts and outcomes are at most `MaxRetries + 1`, or none
-- if that is not positive.
pub do_request-Adds :
    (cb : Circuit) (req : Request) (client : Option ℤ) (env : Env)
    → Adds (rounds cb.max_retries) (do_request cb (some req) client env)
unfolding FromLoop
do_request-Adds cb req client env = elim (do_request-FromLoop cb req env client) [
  | inl l ↦ like-Adds _ _ _ l (attempts_from-Loops cb req env (rounds cb.max_retries) 0 none)
  | inr z ↦ idle-Adds (rounds cb.max_retries) _ z
]
