-- ===== src/Request.antt =====
-- pkg/circuitbreaker.go, `Do`: one call, as the list of its actions on the shared state and the outside
-- world, and its end. What the environment decides (clocks, waits, the transport, the random draws) is
-- an argument.
mod Actions
pub mod Tally
pub mod Stages
pub mod Layers
pub mod Outside
pub mod Limits
pub mod Guards
pub mod Reports
pub mod Ends
pub mod Recordings
pub mod Metered
pub mod Context
pub mod Timeout
pub mod Deadline
pub mod Paced
pub mod Spacing
pub mod Accounting
pub use Actions.*
use circuit_breaker.Base.{
  ℕ, zero, suc, ◌+◌, Bool, true, false, not, ◌&&◌, ◌||◌, Option, none, some, List, [], ◌∷◌, ◌++◌,
  if◌then◌else◌, ltb,
}
use circuit_breaker.Base.Int.{ℤ, pos, negsuc, ◌+ℤ◌, ltb_ℤ, eqb_ℤ}
use circuit_breaker.Base.Words.{int64, sub_time}
use circuit_breaker.Errors.{
  Err, invalid_request, local_op_error, err_stopped, err_deadline_exceeded, errors_is, is_retryable,
}
use circuit_breaker.Breaker.{
  Breaker, Outcome, outcome_neutral, outcome_failure, allow, classify_outcome, status_fails,
}
use circuit_breaker.Endpoint.{attempt, succeed, fail, again, token_cancel}
use circuit_breaker.Circuit.{Circuit, Channel}
use circuit_breaker.Options.{backoff_for}
use circuit_breaker.Bucket.{wait_for_token}
use circuit_breaker.RetryAfter.{retry_after_status, parse_retry_after, wait_retry_after_gate}

-- One round; `more` is `attempt < cb.MaxRetries`.
module _ (cb : Circuit) (req : Request) (env : Env) (a : Attempt) (more : Bool) (n : ℕ) where
  -- The context ended, or the breaker stopped, during a wait for permission to send.
  unfoldable pub refuse : Err → Option Err → Round
  refuse e last =
      first
        (recorded (fail a.start a.refused_at)
          ∷ when (not (errors_is e err_stopped)) (recorded token_cancel ∷ []))
        (leaves [] (returned none (some e)) last)

  -- The sleep before the next round, which the context may cut short.
  unfoldable pub pause : ℤ → Option Err → Round
  pause d last = elim a.interrupted [
    | some e ↦ leaves [] (returned none (some e)) last
    | none ↦ goes_on (slept d ∷ []) last
  ]

  abbrev pub rewindable : Bool
  rewindable = not req.has_body || req.can_rewind

  -- A 429 or 503 with a usable header: the gate is extended, and the call tries again if it may.
  unfoldable pub retry_after : Response → ℤ → Option Err → Round
  retry_after r delay last =
      let capped = if ltb_ℤ cb.retry_after_max delay then cb.retry_after_max else delay in
      let until = a.gate_at +ℤ capped in
      let floor = backoff_for a.draw cb n in
      let wait = sub_time until a.wait_at in
      first (gate_extended (int64 until) ∷ []) (
        if more && rewindable
        then first (when r.has_body (drained ∷ []) ++ recorded (again a.start a.retry_at) ∷ [])
            (pause (if ltb_ℤ wait floor then floor else wait) last)
        else leaves [] (returned (some r) none) last)

  unfoldable pub on_response : Response → Option Err → Round
  on_response r last =
      let counted =
        if status_fails (some r.status) cb.status_fail_min
        then fail a.start a.done_at
        else succeed a.start a.done_at in
      let done = leaves [] (returned (some r) none) last in
      first (recorded counted ∷ []) (
        if ltb_ℤ (pos 0) cb.retry_after_max && retry_after_status r.status
        then elim (parse_retry_after env.parse_time r.retry_after a.header_at) [
          | none ↦ done
          | some delay ↦ retry_after r delay last
        ]
        else done)

  abbrev pub retryable : Err → Bool
  retryable e = elim cb.retry_policy [ none ↦ is_retryable e | some policy ↦ policy e ]

  unfoldable pub on_failure : Err → Round
  on_failure e = first (recorded (fail a.start a.done_at) ∷ []) (
      if not (retryable e)
      then leaves [] (returned none (some e)) (some e)
      else if not rewindable
      then leaves [] (returned none (some e)) (some e)
      else if more
      then first (recorded (again a.start a.retry_at) ∷ [])
          (pause (backoff_for a.draw cb n) (some e))
      else goes_on [] (some e))

  unfoldable pub send : Option Err → Round
  send last = first (sent ∷ []) (elim a.transport [
    | panics ↦ leaves [] panicked last
    | hangs ↦ leaves [] waiting last
    | responds r ↦ on_response r last
    | fails e ↦ on_failure e
  ])

  -- From the second round on the body is rewound; calling a nil `GetBody` panics.
  unfoldable pub rewind_and_send : Option Err → Round
  rewind_and_send last =
      if ltb 0 n && req.has_body
      then if req.can_rewind
        then first (rewound ∷ []) (elim a.body_err [
          | some e ↦
              first (recorded (fail a.start a.done_at) ∷ [])
                (leaves [] (returned none (some (local_op_error e))) last)
          | none ↦ send last
        ])
        else leaves [] panicked last
      else send last

  unfoldable pub with_token : Option Err → Round
  with_token last =
      let bucket : Option Channel = elim cb.tokens [ none ↦ none | some _ ↦ some a.bucket ] in
      elim (wait_for_token a.ctx_err a.woken bucket) [
        | none ↦ leaves [] waiting last
        | some (some e, _) ↦ refuse e last
        | some (none, _) ↦
            first
              (elim cb.tokens [ none ↦ [] | some _ ↦ took_token ∷ [] ]
                ++ recorded (attempt a.start a.attempted_at) ∷ [])
              (rewind_and_send last)
      ]

  unfoldable pub attempt_once : Option Err → Round
  attempt_once last = elim (wait_retry_after_gate cb.retry_after_max a.gate_rounds) [
    | none ↦ leaves [] waiting last
    | some (some e) ↦ refuse e last
    | some none ↦ with_token last
  ]

-- `for attempt := 0; attempt <= cb.MaxRetries; attempt++`
abbrev pub rounds : ℤ → ℕ
rounds (pos n) = suc n
rounds (negsuc n) = 0

abbrev pub is_more : ℕ → Bool
is_more zero = false
is_more (suc left) = true

module _ (cb : Circuit) (req : Request) (env : Env) where
  -- `left` rounds are left, and `n` were made. A `let` binds the later rounds, which are made only if
  -- this one asks for them.
  unfoldable pub attempts_from : ℕ → ℕ → Option Err → Run
  attempts_from zero n last = finish (returned none (some (last_or_nil last))) last
  attempts_from (suc left) n last =
      let later = attempts_from left (suc n) in
      elim (attempt_once cb req env (env.attempts n) (is_more left) n last) [
        | leaves acts ending last' ↦ record { trace = acts; ending = ending; last = last' }
        | goes_on acts last' ↦ after acts (later last')
      ]

  -- The semaphore's slot is held for the whole loop.
  unfoldable pub with_slot : Run
  with_slot =
      let loop = attempts_from (rounds cb.max_retries) 0 none in
      elim cb.sem [
        | none ↦ loop
        | some _ ↦ elim env.slot [
          | granted ↦ deferred (λ _. released ∷ []) (after (acquired ∷ []) loop)
          | cancelled e ↦ finish (returned none (some e)) none
          | blocked ↦ finish waiting none
        ]
      ]

  -- A deadline that passed after real failures of the transport counts as a failure.
  unfoldable pub escalate : Outcome → Option Err → Option Err → Outcome
  escalate outcome_neutral (some e) (some failure) =
      if errors_is e err_deadline_exceeded then outcome_failure else outcome_neutral
  escalate o _ _ = o

  abbrev pub status_of : Option Response → Option ℤ
  status_of none = none
  status_of (some r) = some r.status

  unfoldable pub outcome_of : Option Err → Ending → Outcome
  unfolding escalate
  outcome_of last panicked = outcome_failure
  outcome_of last waiting = outcome_neutral
  outcome_of last (returned resp e) =
      escalate (classify_outcome (status_of resp) e cb.status_fail_min) e last

  -- The deferred report of an admitted call.
  abbrev pub tells : Breaker → Ending → List Action
  tells b ending =
      let admission = (allow env.asked_at b).0 in
      reported admission.probe admission.gen env.reported_at (outcome_of (with_slot.last) ending)
      ∷ []

  -- The state machine is asked first, and told the outcome at the end.
  unfoldable pub with_breaker : Run
  with_breaker = elim cb.state [
    | none ↦ with_slot
    | some b ↦ after (asked env.asked_at ∷ []) (elim (allow env.asked_at b).0.error [
      | some e ↦ finish (returned none (some e)) none
      | none ↦ deferred (tells b) with_slot
    ])
  ]

  abbrev pub end_timeout : Ending → List Action
  end_timeout (returned (some r) none) =
      if r.has_body then timeout_tied ∷ [] else timeout_cancelled ∷ []
  end_timeout _ = timeout_cancelled ∷ []

  -- The default timeout is set if neither the client, with `client_timeout`, nor the context has one.
  unfoldable pub with_default_timeout : ℤ → Run
  with_default_timeout client_timeout =
      if ltb_ℤ (pos 0) cb.default_timeout && (eqb_ℤ client_timeout (pos 0) && not req.has_deadline)
      then after (timeout_set cb.default_timeout ∷ []) (deferred end_timeout with_breaker)
      else with_breaker

-- `Do`, on a request that may be nil or lack a URL, and with the timeout of a client that may be nil.
unfoldable pub do_request : Circuit → Option Request → Option ℤ → Env → Run
do_request cb none client env = finish (returned none (some invalid_request)) none
do_request cb (some req) client env =
    with_default_timeout cb req env (elim client [ none ↦ pos 0 | some t ↦ t ])
