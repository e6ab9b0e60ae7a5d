-- ===== src/Shared/Progress/Schedules.antt =====
-- What any schedule of the calls' actions adds up to.
use circuit_breaker.Base.{ℕ, ◌+◌, ◌≤◌, ap, length, arith, total-Replaced, total-Without}
use circuit_breaker.Request.{with_breaker}
use circuit_breaker.Shared.{
  Call, System, Step, enter, begin, refused, act, tell, tick, halt, Reach, here, next,
}
use circuit_breaker.Shared.Progress.{work}

-- The actions that calls make in a step and in a run.
abbrev acted_by : {s t : System} → Step s t → ℕ
acted_by (act r e silent q) = 1
acted_by (tell probe gen now o w e q) = 1
acted_by _ = 0

abbrev pub acted : {s : System} {n : ℕ} {t : System} → Reach s n t → ℕ
acted here = 0
acted (next r st) = acted r + acted_by st

-- The actions that new calls bring with them.
abbrev brought_by : {s t : System} → Step s t → ℕ
brought_by (enter req env {left} e a run q) = length left
brought_by {s} (begin req env e) = length (with_breaker s.circuit req env).trace
brought_by _ = 0

abbrev pub brought : {s : System} {n : ℕ} {t : System} → Reach s n t → ℕ
brought here = 0
brought (next r st) = brought r + brought_by st

Step-work :
    {s t : System} (st : Step s t) → acted_by st + work t.calls ≤ work s.calls + brought_by st
Step-work (enter req env {left} e a run q) = omega arith
Step-work {s} (begin req env e) = omega arith
Step-work (refused now e a q) = omega arith
Step-work (act r e silent q) =
    omega (arith, total-Replaced (λ (x : Call). length x.left) r, ap length e)
Step-work (tell probe gen now o w e q) =
    omega (arith, total-Without (λ (x : Call). length x.left) w, ap length e)
Step-work (tick ch e on lot) = omega arith
Step-work halt = omega arith

pub Reach-work :
    {s : System} {n : ℕ} {t : System} (r : Reach s n t)
    → acted r + work t.calls ≤ work s.calls + brought r
Reach-work here = omega arith
Reach-work (next r st) = omega (arith, Reach-work r, Step-work st)
