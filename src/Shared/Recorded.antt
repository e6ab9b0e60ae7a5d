-- ===== src/Shared/Recorded.antt =====
-- What interleaved calls of `Do` record, and what they send.
pub mod Totals
use Prim.Native.String.{String}
use text.Mathlib.Text.{◌==◌}
use text.Mathlib.TextEquality.{eq_iff}
use circuit_breaker.Base.{
  ℕ, suc, ◌+◌, ◌-◌, ◌*◌, ◌%◌, ◌^◌, ◌≤◌, ◌≡◌, ◌≢◌, refl, ap, ◌∙◌, if◌then◌else◌, Option, none, some,
  Option-cases, Bool-cases, inl, inr, List, [], ◌∷◌, ◌++◌, arith, Replaced, total, total-Replaced,
  total-Without,
}
use circuit_breaker.Base.Int.{ℤ}
use circuit_breaker.Float.{Float}
use circuit_breaker.Dict.{lookup}
use circuit_breaker.Metrics.{Metrics, record_update}
use circuit_breaker.Metrics.Runs
use circuit_breaker.Metrics.Runs.{
  Counter, total_requests, successful_requests, failed_requests, EveryHost, run,
}
use circuit_breaker.Request.{Action}
use circuit_breaker.Request.Tally.{tally, one_sent, one_attempt, one_outcome}
use circuit_breaker.Request.Recordings.{calls_of, adds, root_total, host_value}
use circuit_breaker.Request.Metered.{run-Counted, one_attempt-adds, one_outcome-adds}
use circuit_breaker.Request.Paced.{owed, attempt_grants, begun-owed, entered-owed}
use circuit_breaker.Shared.{
  Call, System, Step, enter, begin, refused, act, tell, tick, halt, Reach, here, next,
}

-- A weight on the calls to a host.
abbrev at_host : String → (Call → ℕ) → Call → ℕ
at_host h w call = if call.req.host == h then w call else 0

-- How much of a weight the actions of calls to a host have, in a step and in a run. A report, with
-- which a call ends, is left out.
abbrev pub made_by : (Action → ℕ) → String → {s t : System} → Step s t → ℕ
made_by w h (enter req env e a run q) = 0
made_by w h (begin req env e) = 0
made_by w h (refused now e a q) = 0
made_by w h (act {call} {a = a} r e silent q) = at_host h (λ _. w a) call
made_by w h (tell probe gen now o r e q) = 0
made_by w h (tick ch e on lot) = 0
made_by w h halt = 0

abbrev pub made : (Action → ℕ) → String → {s : System} {n : ℕ} {t : System} → Reach s n t → ℕ
made w h here = 0
made w h (next r st) = made_by w h st + made w h r

-- The updates that a step and a run make to the metrics, with `clock` for the readings inside them.
abbrev pub recorded_by : (ℕ → ℤ) → ℕ → {s t : System} → Step s t → List Runs.Call
recorded_by clock n (enter req env e a run q) = []
recorded_by clock n (begin req env e) = []
recorded_by clock n (refused now e a q) = []
recorded_by clock n (act {call} {a = a} r e silent q) = calls_of call.req clock n (a ∷ [])
recorded_by clock n (tell probe gen now o r e q) = []
recorded_by clock n (tick ch e on lot) = []
recorded_by clock n halt = []

abbrev pub recordings : (ℕ → ℤ) → {s : System} {n : ℕ} {t : System} → Reach s n t → List Runs.Call
recordings clock here = []
recordings clock (next {n} r st) = recordings clock r ++ recorded_by clock (2 * n) st

-- The attempts that the calls to a host have recorded for sends to come.
abbrev ahead : String → List Call → ℕ
ahead h = total (at_host h (λ call. owed one_attempt call.left 0))

Step-ahead :
    (h : String) {s t : System} (st : Step s t)
    → made_by one_sent h st + ahead h t.calls ≤ made_by one_attempt h st + ahead h s.calls
Step-ahead h {s} (enter req env {b} {c} {left} e a run q) =
    let z = entered-owed one_attempt s.circuit req env (attempt_grants s.circuit) b left e a run in
    ground (arith, z)
Step-ahead h {s} (begin req env e) =
    let z = begun-owed one_attempt s.circuit req env (attempt_grants s.circuit) e in
    ground (arith, z)
Step-ahead h (refused now e a q) = omega arith
Step-ahead h (act {call} {a = a} {left = left} r e silent q) =
    let moved = total-Replaced (at_host h (λ (x : Call). owed one_attempt x.left 0)) r in
    let mine : owed one_attempt call.left 0 ≡ owed one_attempt left 0 + one_sent a - one_attempt a =
      ap (λ l. owed one_attempt l 0) e in
    ground (arith, moved, mine)
Step-ahead h (tell probe gen now o w e q) =
    omega (arith, total-Without (at_host h (λ (x : Call). owed one_attempt x.left 0)) w)
Step-ahead h (tick ch e on lot) = omega arith
Step-ahead h halt = omega arith

made-ahead :
    (h : String) {s0 : System} {n : ℕ} {s : System} (r : Reach s0 n s)
    → s0.calls ≡ []
    → made one_sent h r + ahead h s.calls ≤ made one_attempt h r
made-ahead h here e = omega (arith, ap (ahead h) e)
made-ahead h (next r st) e = omega (arith, made-ahead h r e, Step-ahead h st)

-- Two weights that add up to a third.
made_by-add :
    (w u v : Action → ℕ)
    → ((a : Action) → w a ≡ u a + v a)
    → (h : String) {s t : System} (st : Step s t) → made_by w h st ≡ made_by u h st + made_by v h st
made_by-add w u v eq h (enter req env e a run q) = refl
made_by-add w u v eq h (begin req env e) = refl
made_by-add w u v eq h (refused now e a q) = refl
made_by-add w u v eq h (act {call} {a = a} r e silent q) = let sum = eq a in ground (arith, sum)
made_by-add w u v eq h (tell probe gen now o r e q) = refl
made_by-add w u v eq h (tick ch e on lot) = refl
made_by-add w u v eq h halt = refl

made-add :
    (w u v : Action → ℕ)
    → ((a : Action) → w a ≡ u a + v a)
    → (h : String) {s0 : System} {n : ℕ} {s : System} (r : Reach s0 n s)
    → made w h r ≡ made u h r + made v h r
made-add w u v eq h here = refl
made-add w u v eq h (next r st) = omega (arith, made-add w u v eq h r, made_by-add w u v eq h st)

made_by_zero : (h : String) {s t : System} (st : Step s t) → made_by (λ _. 0) h st ≡ 0
made_by_zero h (enter req env e a run q) = refl
made_by_zero h (begin req env e) = refl
made_by_zero h (refused now e a q) = refl
made_by_zero h (act {call} {a = a} r e silent q) = ground arith
made_by_zero h (tell probe gen now o r e q) = refl
made_by_zero h (tick ch e on lot) = refl
made_by_zero h halt = refl

made_zero :
    (h : String) {s0 : System} {n : ℕ} {s : System} (r : Reach s0 n s) → made (λ _. 0) h r ≡ 0
made_zero h here = refl
made_zero h (next r st) = omega (arith, made_zero h r, made_by_zero h st)
