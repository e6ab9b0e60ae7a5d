-- ===== src/Shared.antt =====
-- pkg/circuitbreaker.go: many calls of `Do` on one breaker. Each action of a call is
-- atomic: the methods of the machine run under its mutex, a channel operation and the successful
-- compare-and-swap of the gate are atomic anyway. Between two actions of a call any others may come.
pub mod Machine
pub mod Probes
pub mod Tidy
pub mod Slots
pub mod Progress
pub mod Limits
pub mod Recorded
pub mod Gate
pub mod Tokens
pub mod Rate
use circuit_breaker.Base.{
  ◌≤◌, Without, Replaced, ℕ, suc, ◌+◌, ◌-◌, ◌≡◌, ◌≢◌, Bool, true, false, Option, none, some, List,
  [], ◌∷◌, if◌then◌else◌, ltb,
}
use circuit_breaker.Base.Int.{ℤ}
use circuit_breaker.Breaker.{Breaker, Admission, allow, report, Outcome}
use circuit_breaker.Circuit.{Channel, Circuit, refill, size_of, stop}
use circuit_breaker.RetryAfter.{extend_gate}
use circuit_breaker.Request.{
  Action, asked, acquired, released, took_token, rewound, sent, drained, recorded, gate_extended,
  slept, reported, timeout_set, timeout_cancelled, timeout_tied, Request, Env, Run, with_breaker,
}
use circuit_breaker.Request.Tally.{one_acquired, one_released, one_reported}

-- A send to a channel and a receive from it; `none` is an operation that blocks, which one on a nil
-- channel always does.
abbrev pub put : Option Channel → Option Channel
put none = none
put (some ch) = if ltb ch.held ch.capacity then some (record ch { held = suc ch.held }) else none

abbrev pub receive : Option Channel → Option Channel
receive none = none
receive (some ch) = if ltb 0 ch.held then some (record ch { held = ch.held - 1 }) else none

abbrev pub on_machine : (Breaker → Breaker) → Option Breaker → Option Breaker
on_machine f none = none
on_machine f (some b) = some (f b)

-- What an action does to the breaker's fields; `none`: it blocks. The rest of the actions touch the
-- call's own values, the metrics, or the world outside.
unfoldable pub effect : Action → Circuit → Option Circuit
effect (asked now) c = some (record c { state = on_machine (λ b. (allow now b).1) c.state })
effect acquired c = elim (put c.sem) [ none ↦ none | some ch ↦ some (record c { sem = some ch }) ]
effect released c = elim (receive c.sem) [
  | none ↦ none
  | some ch ↦ some (record c { sem = some ch })
]
effect took_token c = elim (receive c.tokens) [
  | none ↦ none
  | some ch ↦ some (record c { tokens = some ch })
]
effect (gate_extended until) c =
    some (record c { retry_after_until = extend_gate until c.retry_after_until [] })
effect (reported probe gen now o) c =
    some (record c { state = on_machine (report probe gen now o) c.state })
effect rewound c = some c
effect sent c = some c
effect drained c = some c
effect (recorded u) c = some c
effect (slept d) c = some c
effect (timeout_set d) c = some c
effect timeout_cancelled c = some c
effect timeout_tied c = some c

-- A call that was let in: its request and its admission, the slots that it holds and the actions
-- that it has left.
pub record Call : Type 0 where
  pub req : Request
  pub admission : Admission
  pub slots : ℕ
  pub left : List Action

pub record System : Type 0 where
  pub circuit : Circuit
  pub calls : List Call

-- `probe := false` and `var probeGen uint64`, which a call on a breaker without a machine keeps.
abbrev pub unasked : Admission
unasked = record { probe = false; gen = 0; error = none }

-- One action of one goroutine. `enter` and `refused`: a call begins by asking the machine as it is;
-- its other actions are those that `Do` makes for some environment. `begin`: a call begins on a
-- breaker without a machine. `act` is any other action but the report, `tell` the report, after which
-- the call no longer counts, and `halt` the return of `Stop`. `tick` is one token that the goroutine
-- of the refill offers, if it offers any: the tokens of one tick come one by one, with actions of others
-- in between.
pub data Step (s : System) : System → Type 0 where
  enter :
      (req : Request) (env : Env) {b : Breaker} {c : Circuit} {left : List Action}
      → s.circuit.state ≡ some b
      → (allow env.asked_at b).0.error ≡ none
      → (with_breaker s.circuit req env).trace ≡ asked env.asked_at ∷ left
      → effect (asked env.asked_at) s.circuit ≡ some c
      → Step s (record {
        circuit = c;
        calls =
            record { req = req; admission = (allow env.asked_at b).0; slots = 0; left = left }
            ∷ s.calls;
      })
  begin :
      (req : Request) (env : Env)
      → s.circuit.state ≡ none
      → Step s (record s {
        calls =
            record {
              req = req;
              admission = unasked;
              slots = 0;
              left = (with_breaker s.circuit req env).trace;
            }
            ∷ s.calls;
      })
  refused :
      (now : ℤ) {b : Breaker} {c : Circuit}
      → s.circuit.state ≡ some b
      → (allow now b).0.error ≢ none
      → effect (asked now) s.circuit ≡ some c
      → Step s (record s { circuit = c })
  act :
      {call : Call} {calls : List Call} {c : Circuit} {a : Action} {left : List Action}
      → Replaced call
          (record call { slots = call.slots + one_acquired a - one_released a; left = left })
          s.calls
          calls
      → call.left ≡ a ∷ left
      → one_reported a ≡ 0
      → effect a s.circuit ≡ some c
      → Step s (record { circuit = c; calls = calls })
  tell :
      {call : Call} {others : List Call} {c : Circuit} (probe : Bool) (gen : ℕ) (now : ℤ)
      (o : Outcome) {left : List Action}
      → Without call s.calls others
      → call.left ≡ reported probe gen now o ∷ left
      → effect (reported probe gen now o) s.circuit ≡ some c
      → Step s (record { circuit = c; calls = others })
  tick :
      (ch : Channel)
      → s.circuit.tokens ≡ some ch
      → s.circuit.refilling ≡ true
      → 1 ≤ size_of s.circuit.tokens_per_tick
      → Step s (record s { circuit = record s.circuit { tokens = some (refill 1 ch) } })
  halt : Step s (record s { circuit = stop s.circuit })

pub data Reach (s : System) : ℕ → System → Type 0 where
  here : Reach s 0 s
  next : {n : ℕ} {t u : System} → Reach s n t → Step t u → Reach s (suc n) u
