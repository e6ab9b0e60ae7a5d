-- ===== src/Shared/Machine.antt =====
-- Calls of `Do`, interleaved action by action, against the machine on which calls enter and finish.
mod Bonds
use circuit_breaker.Base.{
  Replaced-map, All-Replaced, Without-map, map, ℕ, suc, ◌≤◌, ◌≡◌, refl, sym, ◌∙◌, none, some, List,
  [], ◌∷◌, arith,
}
use mathlib.Core.Path.{subst}
use circuit_breaker.Base.{All, All-append, All-Without}
use circuit_breaker.Breaker.{Breaker, Admission, allow, report}
use circuit_breaker.Breaker.Concurrent
use circuit_breaker.Circuit.{Circuit, stop}
use circuit_breaker.Request.{
  Action, asked, acquired, released, took_token, rewound, sent, drained, recorded, gate_extended,
  slept, reported, timeout_set, timeout_cancelled, timeout_tied, Request, Env, Run, Ending,
  returned, panicked, waiting, with_slot, with_breaker, tells, deferred,
}
use circuit_breaker.Request.Tally.{tally, outer, one_reported}
use circuit_breaker.Request.Layers.{with_breaker_admitted}
use circuit_breaker.Request.Guards.{with_slot-outer}
use circuit_breaker.Shared.{
  effect, Call, System, Step, enter, begin, refused, act, tell, tick, halt, Reach, here, next,
}
use circuit_breaker.Shared.Machine.Bonds.{Fits, effect_keeps, entered-All}

-- Each call on its way is bound to its own admission.
abbrev Bound : Call → Type 0
Bound call = All (Fits call.admission) call.left

-- The machine and the admissions of the calls that have not reported.
abbrev pub machine_of : System → Breaker → Concurrent.System
machine_of s b = record { machine = b; running = map (λ (call : Call). call.admission) s.calls }

record Refines (b0 : Breaker) (n : ℕ) (s : System) : Type 0 where
  now : Breaker
  steps : ℕ
  fewer : steps ≤ n
  is_now : s.circuit.state ≡ some now
  bound : All Bound s.calls
  reached : Concurrent.Reach (record { machine = b0; running = [] }) steps (machine_of s now)

Step-Refines :
    (b0 : Breaker) (n : ℕ) {s t : System} → Step s t → Refines b0 n s → Refines b0 (suc n) t
unfolding effect stop
Step-Refines b0 n {s} (enter req env {b} {c} {left} e a run q) v =
    let same : b ≡ v.now = ground (arith, e, v.is_now) in
    record {
      now = (allow env.asked_at b).1;
      steps = suc v.steps;
      fewer = omega (arith, v.fewer);
      is_now = ground arith;
      bound = (entered-All s.circuit req env b left e a run, v.bound);
      reached =
          Concurrent.next
            (subst
              (λ x.
                Concurrent.Reach (record { machine = b0; running = [] }) v.steps (machine_of s x))
              (sym same) v.reached)
            (Concurrent.admit env.asked_at a);
    }
Step-Refines b0 n {s} (begin req env e) v = absurd (ground (arith, e, v.is_now))
Step-Refines b0 n {s} (refused now {b} {c} e a q) v =
    let same : b ≡ v.now = ground (arith, e, v.is_now) in
    record {
      now = (allow now b).1;
      steps = suc v.steps;
      fewer = omega (arith, v.fewer);
      is_now = ground arith;
      bound = v.bound;
      reached =
          Concurrent.next
            (subst
              (λ x.
                Concurrent.Reach (record { machine = b0; running = [] }) v.steps (machine_of s x))
              (sym same) v.reached)
            (Concurrent.refuse now a);
    }
Step-Refines b0 n {s} (act {call} {calls} {c} {a} {left} w e silent q) v =
    let (mine, put) = All-Replaced Bound w v.bound in
    let fits : All (Fits call.admission) (a ∷ left) = subst (All (Fits call.admission)) e mine in
    let kept = effect_keeps call.admission a s.circuit c fits.0 silent q in
    let list = Replaced-map (λ (k : Call). k.admission) refl w in
    record {
      now = v.now;
      steps = v.steps;
      fewer = omega (arith, v.fewer);
      is_now = kept ∙ v.is_now;
      bound = put fits.1;
      reached =
          subst
            (λ l.
              Concurrent.Reach (record { machine = b0; running = [] }) v.steps
                (record { machine = v.now; running = l }))
            list v.reached;
    }
Step-Refines b0 n {s} (tell {call} {others} {c} probe gen now o {left} w e q) v =
    let (mine, rest) = All-Without Bound w v.bound in
    let fits : All (Fits call.admission) (reported probe gen now o ∷ left) =
      subst (All (Fits call.admission)) e mine in
    record {
      now = report call.admission.probe call.admission.gen now o v.now;
      steps = suc v.steps;
      fewer = omega (arith, v.fewer);
      is_now = ground (arith, v.is_now, fits.0);
      bound = rest;
      reached =
          Concurrent.next v.reached
            (Concurrent.finish now o (Without-map (λ (k : Call). k.admission) w));
    }
Step-Refines b0 n {s} (tick ch e on lot) v = record {
  now = v.now;
  steps = v.steps;
  fewer = omega (arith, v.fewer);
  is_now = v.is_now;
  bound = v.bound;
  reached = v.reached;
}
Step-Refines b0 n {s} halt v = record {
  now = v.now;
  steps = v.steps;
  fewer = omega (arith, v.fewer);
  is_now = ground (arith, v.is_now);
  bound = v.bound;
  reached = v.reached;
}

Reach-Refines :
    (b0 : Breaker) {s0 : System} {n : ℕ} {s : System}
    → s0.circuit.state ≡ some b0
    → s0.calls ≡ []
    → Reach s0 n s
    → Refines b0 n s
Reach-Refines b0 {s0} e none_yet here = record {
  now = b0;
  steps = 0;
  fewer = omega arith;
  is_now = e;
  bound = subst (All Bound) (sym none_yet) tt;
  reached =
      subst
        (λ l.
          Concurrent.Reach (record { machine = b0; running = [] }) 0
            (record { machine = b0; running = map (λ (k : Call). k.admission) l }))
        (sym none_yet) Concurrent.here;
}
Reach-Refines b0 e none_yet (next {n} r st) = Step-Refines b0 n st (Reach-Refines b0 e none_yet r)

-- Calls of `Do` refine the machine on which a call is a pair of `allow` and one matching `report`:
-- whatever requests and environments the calls have, and however their actions, the refill's ticks
-- and `Stop` interleave, the machine that the breaker then has, with the admissions of the calls
-- that have not reported, is a state that the abstract machine reaches from the same start, in as
-- many steps at most.
pub calls-Reach :
    (b0 : Breaker) {s0 : System} {n : ℕ} {s : System}
    → s0.circuit.state ≡ some b0
    → s0.calls ≡ []
    → Reach s0 n s
    → (b : Breaker) × (k : ℕ) × (s.circuit.state ≡ some b)
      × (k ≤ n)
      × Concurrent.Reach (record { machine = b0; running = [] }) k (machine_of s b)
calls-Reach b0 e none_yet r =
    let v = Reach-Refines b0 e none_yet r in (v.now, v.steps, v.is_now, v.fewer, v.reached)
