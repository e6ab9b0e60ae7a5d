-- ===== src/Request/Ends.antt =====
-- When a call of `Do` comes back, and with what.
use circuit_breaker.Base.{ℕ, ◌≡◌, ◌≢◌, none, some, ◌⊎◌}
use circuit_breaker.Errors.{Err}
use circuit_breaker.Circuit.{Circuit}
use circuit_breaker.Bucket.{wait_for_token}
use circuit_breaker.RetryAfter.{wait_retry_after_gate}
use circuit_breaker.Request.{
  Request, Response, Attempt, Ending, Round, leaves, goes_on, returned, panicked, waiting, hangs,
}

-- A call that waits, or returns both or neither of a response and an error.
abbrev unsettled_at : Ending → ℕ
unsettled_at waiting = 1
unsettled_at (returned none none) = 1
unsettled_at (returned (some r) (some e)) = 1
unsettled_at _ = 0

abbrev unsettled_of : Round → ℕ
unsettled_of (leaves _ ending _) = unsettled_at ending
unsettled_of (goes_on _ _) = 0

-- What a round waits for without a time limit of its own: the gate, the bucket and `cl.Do`.
pub record Comes (cb : Circuit) (a : Attempt) : Type 0 where
  pub gate_opens : wait_retry_after_gate cb.retry_after_max a.gate_rounds ≢ none
  pub token_comes :
      wait_for_token a.ctx_err a.woken (elim cb.tokens [ none ↦ none | some _ ↦ some a.bucket ])
      ≢ none
  pub answers : a.transport ≢ hangs

-- A response, an error or a panic.
abbrev pub IsAnswer : Ending → Type 0
IsAnswer ending =
    ((r : Response) × (ending ≡ returned (some r) none))
    ⊎ ((e : Err) × (ending ≡ returned none (some e)))
    ⊎ (ending ≡ panicked)
