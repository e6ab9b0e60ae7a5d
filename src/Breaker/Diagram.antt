-- ===== src/Breaker/Diagram.antt =====
-- The transition diagram of the machine, with the counters left out.
use Prim.Native.String.{String}
use text.Mathlib.Text.{◌==◌}
use circuit_breaker.Base.{ℕ, ◌≡◌, refl, sym, ap, ◌∙◌, Bool, if◌then◌else◌, arith}
use circuit_breaker.Base.Int.{ℤ}
use circuit_breaker.Breaker.{
  BreakerState, state_string, state_disabled, state_closed, state_open, state_half_open, Outcome,
  Breaker, allow, report,
}

infix 40 ◌⟶◌
pub data ◌⟶◌ : BreakerState → BreakerState → Type 0 where
  stay : {s : BreakerState} → s ⟶ s
  trip : state_closed ⟶ state_open
  try_again : state_open ⟶ state_half_open
  recover : state_half_open ⟶ state_closed
  reopen : state_half_open ⟶ state_open

ruleset edges = (stay, trip, try_again, recover, reopen)

-- Whatever the clock, the call and its outcome are, `allow` and `report` leave the state or follow
-- an edge of the diagram: closed to open, open to half-open, half-open to closed or open.
pub allow_report_follow :
    (b : Breaker) (now : ℤ) (probe : Bool) (gen : ℕ) (at : ℤ) (o : Outcome)
    → (b.cur ⟶ (allow now b).1.cur) × (b.cur ⟶ (report probe gen at o b).cur)
unfolding allow report
allow_report_follow b now probe gen at o = (grind (arith, edges), grind (arith, edges))

abbrev state_named : String → BreakerState
state_named x =
    if x == "closed"
    then state_closed
    else if x == "open"
    then state_open
    else if x == "half-open"
    then state_half_open
    else state_disabled

state_named-state_string : (s : BreakerState) → state_named (state_string s) ≡ s
state_named-state_string state_disabled = refl
state_named-state_string state_closed = refl
state_named-state_string state_open = refl
state_named-state_string state_half_open = refl

-- `String` tells the states apart.
pub state_string_inj : (s t : BreakerState) → state_string s ≡ state_string t → s ≡ t
state_string_inj s t e =
    sym (state_named-state_string s) ∙ ap state_named e ∙ state_named-state_string t
