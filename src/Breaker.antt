-- ===== src/Breaker.antt =====
-- pkg/state.go: the opt-in machine closed/open/half-open. Each method runs under the machine's mutex,
-- so it is one step: a function from the state to the new state. The clock is an argument; a time is a
-- number of nanoseconds. Counters are integers; `gen` is a uint64 and wraps.
pub mod Diagram
pub mod Gatekeeping
pub mod Streak
pub mod Concurrent
use Prim.Native.String.{String}
use circuit_breaker.Base.{
  ℕ, suc, ◌+◌, ◌*◌, ◌%◌, ◌^◌, Bool, true, false, not, ◌&&◌, ◌||◌, Option, none, some, ◌==◌,
  if◌then◌else◌,
}
use circuit_breaker.Base.Int.{ℤ, pos, ◌+ℤ◌, ◌-ℤ◌, ltb_ℤ, leb_ℤ}
use circuit_breaker.Base.Words.{sub_time}
use circuit_breaker.Errors.{
  Err, circuit_open, err_canceled, err_deadline_exceeded, err_stopped, errors_is, as_local_op,
  as_url_error,
}

pub data BreakerState : Type 0 where
  state_disabled state_closed state_open state_half_open : BreakerState

-- `String`
abbrev pub state_string : BreakerState → String
state_string state_closed = "closed"
state_string state_open = "open"
state_string state_half_open = "half-open"
state_string state_disabled = "disabled"

pub data Outcome : Type 0 where
  outcome_neutral outcome_success outcome_failure : Outcome

-- `statusFailMin > 0 && resp != nil && resp.StatusCode >= statusFailMin`, on the status of a
-- response that may be nil.
unfoldable pub status_fails : Option ℤ → ℤ → Bool
status_fails none min = false
status_fails (some status) min = ltb_ℤ (pos 0) min && leb_ℤ min status

unfoldable pub classify_error : Err → Outcome
classify_error e =
    if errors_is e err_canceled
    then outcome_neutral
    else if as_local_op e
    then outcome_neutral
    else if as_url_error e
    then outcome_failure
    else if errors_is e err_deadline_exceeded || errors_is e err_stopped
    then outcome_neutral
    else outcome_failure

unfoldable pub classify_outcome : Option ℤ → Option Err → ℤ → Outcome
unfolding status_fails classify_error
classify_outcome resp none min = if status_fails resp min then outcome_failure else outcome_success
classify_outcome resp (some e) min = classify_error e

pub record Breaker : Type 0 where
  pub threshold : ℤ
  pub open_for : ℤ
  pub max_probes : ℤ
  pub cur : BreakerState
  pub consec_fails : ℤ
  pub opened_at : ℤ
  pub probes : ℤ
  pub gen : ℕ
  pub half_open_at : ℤ

-- 30 * time.Second
abbrev pub default_open_for : ℤ
default_open_for = pos 30_000_000_000

-- The fields that the literal leaves out are zero values; `zero_time` is that of `time.Time`.
unfoldable pub new_breaker_state : ℤ → ℤ → ℤ → ℤ → Breaker
new_breaker_state zero_time threshold open_for max_probes = record {
  threshold = if ltb_ℤ threshold (pos 1) then pos 1 else threshold;
  open_for = if leb_ℤ open_for (pos 0) then default_open_for else open_for;
  max_probes = if ltb_ℤ max_probes (pos 1) then pos 1 else max_probes;
  cur = state_closed;
  consec_fails = pos 0;
  opened_at = zero_time;
  probes = pos 0;
  gen = 0;
  half_open_at = zero_time;
}

pub enter_half_open : ℤ → Breaker → Breaker
enter_half_open now b = record b {
  cur = state_half_open;
  probes = pos 0;
  gen = (b.gen + 1) % 2 ^ 64;
  half_open_at = now;
}

-- What `allow` returns: (probe, gen, error).
pub record Admission : Type 0 where
  pub probe : Bool
  pub gen : ℕ
  pub error : Option Err

abbrev pub refused : Admission
refused = record { probe = false; gen = 0; error = some circuit_open }

-- `b.probes++; return true, b.gen, nil`
pub admit_probe : Breaker → Admission × Breaker
admit_probe b =
    (record { probe = true; gen = b.gen; error = none }, record b { probes = b.probes +ℤ pos 1 })

-- The case `StateHalfOpen`, which the case `StateOpen` falls through to.
pub allow_half_open : ℤ → Breaker → Admission × Breaker
unfolding admit_probe enter_half_open
allow_half_open now b =
    if leb_ℤ b.max_probes b.probes
    then if ltb_ℤ (sub_time now b.half_open_at) b.open_for
      then (refused, b)
      else admit_probe (enter_half_open now b)
    else admit_probe b

pub allow_at : BreakerState → ℤ → Breaker → Admission × Breaker
unfolding allow_half_open
allow_at state_open now b =
    if ltb_ℤ (sub_time now b.opened_at) b.open_for
    then (refused, b)
    else allow_half_open now (enter_half_open now b)
allow_at state_half_open now b = allow_half_open now b
allow_at state_closed now b = (record { probe = false; gen = 0; error = none }, b)
allow_at state_disabled now b = (record { probe = false; gen = 0; error = none }, b)

unfoldable pub allow : ℤ → Breaker → Admission × Breaker
unfolding allow_at
allow now b = allow_at b.cur now b

pub report_closed : ℤ → Outcome → Breaker → Breaker
report_closed now outcome_neutral b = b
report_closed now outcome_success b = record b { consec_fails = pos 0 }
report_closed now outcome_failure b =
    let fails = b.consec_fails +ℤ pos 1 in
    if leb_ℤ b.threshold fails
    then record b { consec_fails = fails; cur = state_open; opened_at = now }
    else record b { consec_fails = fails }

pub report_half_open : Bool → ℤ → Outcome → Breaker → Breaker
report_half_open false now o b = b
report_half_open true now outcome_neutral b = record b { probes = b.probes -ℤ pos 1 }
report_half_open true now outcome_success b = record b { cur = state_closed; consec_fails = pos 0 }
report_half_open true now outcome_failure b = record b { cur = state_open; opened_at = now }

pub report_at : BreakerState → Bool → ℤ → Outcome → Breaker → Breaker
unfolding report_closed report_half_open
report_at state_closed probe now o b = report_closed now o b
report_at state_half_open probe now o b = report_half_open probe now o b
report_at state_open probe now o b = b
report_at state_disabled probe now o b = b

-- `now` is what `time.Now()` gives inside the method.
unfoldable pub report : Bool → ℕ → ℤ → Outcome → Breaker → Breaker
unfolding report_at
report probe gen now o b = if probe && not (gen == b.gen) then b else report_at b.cur probe now o b

unfoldable pub current : Breaker → BreakerState
current b = b.cur

-- The method `State` of `circuitBreaker`, whose field `state` may be nil.
unfoldable pub state_of : Option Breaker → BreakerState
unfolding current
state_of none = state_disabled
state_of (some b) = current b
