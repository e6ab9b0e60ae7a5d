-- ===== src/Request/Context.antt =====
-- The context of `WithDefaultTimeout`, which the actions of `Do` and its deadline end, and the response's
-- body that carries its cancellation: in pkg/circuitbreaker.go the beginning of `Do`, `drainAndClose`
-- and `cancelOnClose`.
use circuit_breaker.Base.{
  ℕ, ◌-◌, ◌≡◌, ◌⊎◌, if◌then◌else◌, Bool, true, Option, none, some, List, [], ◌∷◌,
}
use circuit_breaker.Errors.{Err}
use circuit_breaker.Request.{
  Action, timeout_set, timeout_cancelled, Ending, returned, panicked, waiting,
}

-- The reader of a response, with the bytes that it has left.
pub record Body : Type 0 where
  pub unread : ℕ
  pub is_closed : Bool
  pub close_error : Option Err

-- `drainAndClose`: 64 KiB at most are read. `none` is a nil response or a nil body.
unfoldable pub drain_and_close : Option Body → Option Body
drain_and_close none = none
drain_and_close (some b) = some (record b { unread = b.unread - 65_536; is_closed = true })

-- The context that `context.WithTimeout` makes: it runs until it is cancelled or its deadline passes.
pub data Context : Type 0 where
  unset running cancelled expired : Context

-- `cancel()`; a context that has ended stays as it is.
abbrev pub cancel : Context → Context
cancel running = cancelled
cancel c = c

-- The deadline passes.
abbrev pub expire : Context → Context
expire running = expired
expire c = c

-- `context.WithTimeout`; on a context that has ended it gives one that has ended.
abbrev pub set_timeout : Context → Context
set_timeout unset = running
set_timeout c = c

abbrev pub HasEnded : Context → Type 0
HasEnded c = (c ≡ cancelled) ⊎ (c ≡ expired)

-- `cancelOnClose`.
pub record CancelOnClose : Type 0 where
  pub body : Body
  pub context : Context

unfoldable pub close : CancelOnClose → Option Err × CancelOnClose
close c = (
  c.body.close_error,
  record { body = record c.body { is_closed = true }; context = cancel c.context },
)

-- What the actions of `Do` make of the context.
abbrev pub act_on : Action → Context → Context
act_on (timeout_set d) c = set_timeout c
act_on timeout_cancelled c = cancel c
act_on _ c = c

-- In the context's life the actions of `Do` come in their order, and the deadline passes at any time,
-- also after the call.
pub data Event : Type 0 where
  does : Action → Event
  deadline : Event

abbrev pub context_step : Event → Context → Context
context_step (does a) c = act_on a c
context_step deadline c = expire c

abbrev pub context_after : List Event → Context → Context
context_after [] c = c
context_after (ev ∷ evs) c = context_after evs (context_step ev c)

abbrev pub actions_of : List Event → List Action
actions_of [] = []
actions_of (does a ∷ evs) = a ∷ actions_of evs
actions_of (deadline ∷ evs) = actions_of evs

-- The same with a deadline that does not pass.
abbrev pub undisturbed : List Action → Context → Context
undisturbed [] c = c
undisturbed (a ∷ acts) c = undisturbed acts (act_on a c)

-- A response with a body leaves the context to the caller, and a call that has not come back keeps it.
abbrev pub left_context : Ending → Context
left_context waiting = running
left_context panicked = cancelled
left_context (returned none e) = cancelled
left_context (returned (some r) none) = if r.has_body then running else cancelled
left_context (returned (some r) (some e)) = cancelled
