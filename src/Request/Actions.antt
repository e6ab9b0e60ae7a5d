-- ===== src/Request/Actions.antt =====
-- pkg/circuitbreaker.go, `Do`: what a call gets and meets, its actions, and the ways it ends.
use Prim.Native.String.{String}
use text.Mathlib.Text.{◌==◌}
use circuit_breaker.Base.{ℕ, Bool, Option, none, some, List, [], ◌++◌, if◌then◌else◌}
use circuit_breaker.Base.Int.{ℤ}
use circuit_breaker.Errors.{Err, retries_exhausted, retries_exhausted_nil}
use circuit_breaker.Breaker.{Outcome}
use circuit_breaker.Endpoint.{Update}
use circuit_breaker.Circuit.{Channel}
use circuit_breaker.Bucket.{Woken}
use circuit_breaker.RetryAfter.{Round as GateRound}

pub record Response : Type 0 where
  pub status : ℤ
  pub retry_after : List ℕ
  pub has_body : Bool

-- A request with a URL. `has_body` is `Body != nil`, `can_rewind` is `GetBody != nil`, and
-- `has_deadline` is that of its context.
pub record Request : Type 0 where
  pub host : String
  pub path : String
  pub has_body : Bool
  pub can_rewind : Bool
  pub has_deadline : Bool

-- The keys under which a call is recorded: the host, and the path or "/".
abbrev pub endpoint_of : Request → String
endpoint_of req = if req.path == "" then "/" else req.path

-- What `cl.Do` does. `hangs`: it never comes back.
pub data Transport : Type 0 where
  responds : Response → Transport
  fails : Err → Transport
  panics hangs : Transport

-- What the semaphore's `select` does.
pub data Slot : Type 0 where
  granted blocked : Slot
  cancelled : Err → Slot

-- What one round of the loop meets: clock readings, the gate and the bucket that it finds, the
-- context's error at `waitForToken`, the error of `GetBody` if it has one, the transport, and the
-- context's error if it ends a sleep.
pub record Attempt : Type 0 where
  pub start : ℤ
  pub refused_at : ℤ
  pub attempted_at : ℤ
  pub done_at : ℤ
  pub header_at : ℤ
  pub gate_at : ℤ
  pub retry_at : ℤ
  pub wait_at : ℤ
  pub gate_rounds : List GateRound
  pub ctx_err : Option Err
  pub bucket : Channel
  pub woken : Woken
  pub body_err : Option Err
  pub transport : Transport
  pub interrupted : Option Err
  pub draw : ℕ → ℕ

pub record Env : Type 0 where
  pub asked_at : ℤ
  pub reported_at : ℤ
  pub slot : Slot
  pub attempts : ℕ → Attempt
  pub parse_time : List ℕ → Option ℤ

pub data Action : Type 0 where
  asked : ℤ → Action
  acquired released took_token rewound sent drained : Action
  recorded : Update → Action
  gate_extended : ℤ → Action
  slept : ℤ → Action
  reported : Bool → ℕ → ℤ → Outcome → Action
  timeout_set : ℤ → Action
  timeout_cancelled timeout_tied : Action

-- `waiting`: the call has not come back.
pub data Ending : Type 0 where
  returned : Option Response → Option Err → Ending
  panicked waiting : Ending

-- `last` is the variable `lastErr`.
pub record Run : Type 0 where
  pub trace : List Action
  pub ending : Ending
  pub last : Option Err

-- What one round of the loop does: it leaves `Do`, or goes on to the next round.
pub data Round : Type 0 where
  leaves : List Action → Ending → Option Err → Round
  goes_on : List Action → Option Err → Round

abbrev pub first : List Action → Round → Round
first acts (leaves more_acts ending last) = leaves (acts ++ more_acts) ending last
first acts (goes_on more_acts last) = goes_on (acts ++ more_acts) last

abbrev pub after : List Action → Run → Run
after acts r = record r { trace = acts ++ r.trace }

abbrev pub finish : Ending → Option Err → Run
finish ending last = record { trace = []; ending = ending; last = last }

-- Deferred calls run unless the call is still waiting.
abbrev pub deferred : (Ending → List Action) → Run → Run
deferred acts r = elim r.ending [
  | waiting ↦ r
  | returned resp e ↦ record r { trace = r.trace ++ acts (returned resp e) }
  | panicked ↦ record r { trace = r.trace ++ acts panicked }
]

abbrev pub when : Bool → List Action → List Action
when b acts = if b then acts else []

abbrev pub last_or_nil : Option Err → Err
last_or_nil none = retries_exhausted_nil
last_or_nil (some e) = retries_exhausted e
