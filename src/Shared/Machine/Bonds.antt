-- ===== src/Shared/Machine/Bonds.antt =====
-- What the calls of `Do` that the machine admitted may still do to it.
use circuit_breaker.Base.{◌≡◌, refl, none, some, List, [], ◌∷◌, arith}
use mathlib.Core.Path.{subst}
use circuit_breaker.Base.{All, All-append}
use circuit_breaker.Breaker.{Breaker, Admission, allow}
use circuit_breaker.Circuit.{Circuit}
use circuit_breaker.Request.{
  Action, asked, acquired, released, took_token, rewound, sent, drained, recorded, gate_extended,
  slept, reported, timeout_set, timeout_cancelled, timeout_tied, Request, Env, Run, Ending,
  returned, panicked, waiting, with_slot, with_breaker, tells, deferred,
}
use circuit_breaker.Request.Tally.{tally, outer, one_reported}
use circuit_breaker.Request.Layers.{with_breaker_admitted}
use circuit_breaker.Request.Guards.{with_slot-outer}
use circuit_breaker.Shared.{effect}

-- What an admitted call may still do to the machine: report its own admission.
abbrev pub Fits : Admission → Action → Type 0
Fits m (reported probe gen now o) = (probe ≡ m.probe) × (gen ≡ m.gen)
Fits m (asked now) = ⊥
Fits m _ = Unit

silent-Fits : (m : Admission) (a : Action) → outer 0 0 1 1 0 a ≡ 0 → Fits m a
silent-Fits m (reported probe gen now o) h = absurd (omega arith)
silent-Fits m (asked now) h = absurd (omega arith)
silent-Fits m acquired h = tt
silent-Fits m released h = tt
silent-Fits m took_token h = tt
silent-Fits m rewound h = tt
silent-Fits m sent h = tt
silent-Fits m drained h = tt
silent-Fits m (recorded u) h = tt
silent-Fits m (gate_extended g) h = tt
silent-Fits m (slept d) h = tt
silent-Fits m (timeout_set d) h = tt
silent-Fits m timeout_cancelled h = tt
silent-Fits m timeout_tied h = tt

silent-All :
    (m : Admission) (acts : List Action) → tally (outer 0 0 1 1 0) acts ≡ 0 → All (Fits m) acts
silent-All m [] h = tt
silent-All m (a ∷ acts) h = (silent-Fits m a (omega arith), silent-All m acts (omega arith))

-- An action that neither asks nor reports leaves the machine alone.
pub effect_keeps :
    (m : Admission) (a : Action) (c c' : Circuit)
    → Fits m a
    → one_reported a ≡ 0
    → effect a c ≡ some c'
    → c'.state ≡ c.state
unfolding effect
effect_keeps m (reported probe gen now o) c c' h q e = absurd (omega arith)
effect_keeps m (asked now) c c' h q e = elim h [ ]
effect_keeps m acquired c c' h q e = ground arith
effect_keeps m released c c' h q e = ground arith
effect_keeps m took_token c c' h q e = ground arith
effect_keeps m (gate_extended g) c c' h q e = ground arith
effect_keeps m rewound c c' h q e = cc
effect_keeps m sent c c' h q e = cc
effect_keeps m drained c c' h q e = cc
effect_keeps m (recorded u) c c' h q e = cc
effect_keeps m (slept d) c c' h q e = cc
effect_keeps m (timeout_set d) c c' h q e = cc
effect_keeps m timeout_cancelled c c' h q e = cc
effect_keeps m timeout_tied c c' h q e = cc

-- What the deferred report adds to a run that did not come back, or did.
deferred-All :
    (m : Admission) (acts : Ending → List Action) (r : Run) (e : Ending)
    → r.ending ≡ e
    → All (Fits m) r.trace
    → ((x : Ending) → All (Fits m) (acts x))
    → All (Fits m) (deferred acts r).trace
deferred-All m acts r waiting e h k = rw (e) h
deferred-All m acts r panicked e h k =
    rw (e) (All-append (Fits m) r.trace (acts panicked) h (k panicked))
deferred-All m acts r (returned resp x) e h k =
    rw (e) (All-append (Fits m) r.trace (acts (returned resp x)) h (k (returned resp x)))

pub entered-All :
    (cb : Circuit) (req : Request) (env : Env) (b : Breaker) (left : List Action)
    → cb.state ≡ some b
    → (allow env.asked_at b).0.error ≡ none
    → (with_breaker cb req env).trace ≡ asked env.asked_at ∷ left
    → All (Fits (allow env.asked_at b).0) left
entered-All cb req env b left e a t =
    let m = (allow env.asked_at b).0 in
    let r = with_slot cb req env in
    let run = with_breaker_admitted cb req env b e a in
    let same : (deferred (tells cb req env b) r).trace ≡ left = cc in
    subst (All (Fits m)) same (
      deferred-All m (tells cb req env b) r r.ending refl
        (silent-All m r.trace (with_slot-outer cb req env 1 1 0)) (λ x. ((refl, refl), tt)))
