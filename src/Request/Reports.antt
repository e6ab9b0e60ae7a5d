-- ===== src/Request/Reports.antt =====
-- What a call of `Do` tells the state machine, within the default timeout.
use circuit_breaker.Base.{◌≡◌, ◌≢◌, true, false, Option, none, some, ◌⊎◌}
use circuit_breaker.Base.Int.{ℤ, pos, ◌<ℤ◌, ◌≤ℤ◌}
use circuit_breaker.Errors.{
  Err, errors_is, as_local_op, as_url_error, err_canceled, err_stopped, err_deadline_exceeded,
}
use circuit_breaker.Breaker.{Breaker, Outcome, outcome_neutral, outcome_success, outcome_failure}
use circuit_breaker.Circuit.{Circuit}
use circuit_breaker.Request.{Request, Ending, Response, returned, panicked, waiting}

-- The caller gave up, or the breaker itself failed: no evidence on the downstream.
abbrev pub IsLocal : Err → Type 0
IsLocal e = (errors_is e err_canceled ≡ true) ⊎ (as_local_op e ≡ true)

-- An error that speaks against the downstream: one of the client's, whatever its cause, or one that is
-- neither a passed deadline nor the breaker's `Stop`.
abbrev pub IsEvidence : Err → Type 0
IsEvidence e =
    (errors_is e err_canceled ≡ false)
    × (as_local_op e ≡ false)
    × ((as_url_error e ≡ true)
        ⊎ ((errors_is e err_deadline_exceeded ≡ false) × (errors_is e err_stopped ≡ false)))

-- The ways a call fails for the machine, where `last` is the last failure of the transport: it panics,
-- its response has a status that counts as a failure, its error is evidence, or it is out of time
-- after the transport had failed.
abbrev pub Fails : ℤ → Option Err → Ending → Type 0
Fails min last panicked = Unit
Fails min last waiting = ⊥
Fails min last (returned none none) = ⊥
Fails min last (returned (some r) none) = (pos 0 <ℤ min) × (min ≤ℤ r.status)
Fails min last (returned resp (some e)) =
    IsEvidence e ⊎ ((errors_is e err_deadline_exceeded ≡ true) × (last ≢ none))

abbrev pub HasError : Ending → Type 0
HasError ending = (resp : Option Response) × (e : Err) × (ending ≡ returned resp (some e))

-- The outcome of a call that has come back: a failure if it fails as above, else a success without an
-- error and neutral with one.
abbrev pub IsOutcomeOf : ℤ → Option Err → Ending → Outcome → Type 0
IsOutcomeOf min last ending o =
    ((o ≡ outcome_failure) × Fails min last ending)
    ⊎ ((o ≡ outcome_success) × (¬ Fails min last ending) × (¬ HasError ending))
    ⊎ ((o ≡ outcome_neutral) × (¬ Fails min last ending) × HasError ending)
