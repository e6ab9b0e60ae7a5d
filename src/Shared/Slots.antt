-- ===== src/Shared/Slots.antt =====
-- The semaphore under interleaved calls of `Do`.
use circuit_breaker.Base.{
  total, total-Replaced, total-Without, All, All-Without, All-Replaced, Without, ℕ, ◌+◌, ◌≤◌, ◌≡◌,
  ◌≢◌, refl, sym, none, some, List, [], ◌∷◌, arith,
}
use mathlib.Core.Path.{subst}
use circuit_breaker.Circuit.{Circuit, stop}
use circuit_breaker.Request.{
  Action, asked, acquired, released, took_token, rewound, sent, drained, recorded, gate_extended,
  slept, reported, timeout_set, timeout_cancelled, timeout_tied,
}
use circuit_breaker.Request.Tally.{one_acquired, one_released}
use circuit_breaker.Shared.{
  effect, Call, System, Step, enter, begin, refused, act, tell, tick, halt, Reach, here, next,
}
use circuit_breaker.Shared.Tidy.{Tidy, begun-Tidy, entered-Tidy}

abbrev pub in_use : Circuit → ℕ
in_use c = elim c.sem [ none ↦ 0 | some ch ↦ ch.held ]

abbrev pub room : Circuit → ℕ
room c = elim c.sem [ none ↦ 0 | some ch ↦ ch.capacity ]

abbrev pub slots_of : List Call → ℕ
slots_of = total (λ call. call.slots)

-- An action moves the semaphore as it says.
effect_slots :
    (a : Action) (c c' : Circuit)
    → effect a c ≡ some c'
    → in_use c ≤ room c
    → (in_use c' + one_released a ≡ in_use c + one_acquired a)
      × (room c' ≡ room c)
      × (in_use c' ≤ room c')
unfolding effect
effect_slots (asked now) c c' e h = (ground arith, ground arith, ground arith)
effect_slots acquired c c' e h = (ground arith, ground arith, ground arith)
effect_slots released c c' e h = (ground arith, ground arith, ground arith)
effect_slots took_token c c' e h = (ground arith, ground arith, ground arith)
effect_slots rewound c c' e h = (ground arith, ground arith, ground arith)
effect_slots sent c c' e h = (ground arith, ground arith, ground arith)
effect_slots drained c c' e h = (ground arith, ground arith, ground arith)
effect_slots (recorded u) c c' e h = (ground arith, ground arith, ground arith)
effect_slots (gate_extended g) c c' e h = (ground arith, ground arith, ground arith)
effect_slots (slept d) c c' e h = (ground arith, ground arith, ground arith)
effect_slots (reported p g t o) c c' e h = (ground arith, ground arith, ground arith)
effect_slots (timeout_set d) c c' e h = (ground arith, ground arith, ground arith)
effect_slots timeout_cancelled c c' e h = (ground arith, ground arith, ground arith)
effect_slots timeout_tied c c' e h = (ground arith, ground arith, ground arith)

abbrev pub TidyCall : Call → Type 0
TidyCall call = Tidy call.slots call.left

pub record Counted (limit : ℕ) (s : System) : Type 0 where
  pub exact : in_use s.circuit ≡ slots_of s.calls
  pub limited : room s.circuit ≡ limit
  pub within : in_use s.circuit ≤ limit
  pub tidy : All TidyCall s.calls

pub Step-Counted : (k : ℕ) {s t : System} → Step s t → Counted k s → Counted k t
unfolding stop
Step-Counted k {s} (enter req env {b} {c} {left} e a run q) v =
    let m = effect_slots (asked env.asked_at) s.circuit c q (omega (arith, v.limited, v.within)) in
    record {
      exact = omega (arith, m.0, v.exact);
      limited = omega (arith, m.1, v.limited);
      within = omega (arith, m.1, m.2, v.limited);
      tidy = (entered-Tidy s.circuit req env b left e a run, v.tidy);
    }
Step-Counted k {s} (begin req env e) v = record {
  exact = omega (arith, v.exact);
  limited = v.limited;
  within = v.within;
  tidy = (begun-Tidy s.circuit req env e, v.tidy);
}
Step-Counted k {s} (refused now {b} {c} e a q) v =
    let m = effect_slots (asked now) s.circuit c q (omega (arith, v.limited, v.within)) in
    record {
      exact = omega (arith, m.0, v.exact);
      limited = omega (arith, m.1, v.limited);
      within = omega (arith, m.1, m.2, v.limited);
      tidy = v.tidy;
    }
Step-Counted k {s} (act {call} {calls} {c} {a} {left} w e silent q) v =
    let m = effect_slots a s.circuit c q (omega (arith, v.limited, v.within)) in
    let (mine, put) = All-Replaced TidyCall w v.tidy in
    let tidy : Tidy call.slots (a ∷ left) = subst (Tidy call.slots) e mine in
    let total = total-Replaced (λ (call : Call). call.slots) w in
    record {
      exact = omega (arith, m.0, v.exact, total, tidy.0);
      limited = omega (arith, m.1, v.limited);
      within = omega (arith, m.1, m.2, v.limited);
      tidy = put tidy.3;
    }
Step-Counted k {s} (tell {call} {others} {c} probe gen now o {left} w e q) v =
    let m =
      effect_slots (reported probe gen now o) s.circuit c q (omega (arith, v.limited, v.within)) in
    let (mine, rest) = All-Without TidyCall w v.tidy in
    let tidy : Tidy call.slots (reported probe gen now o ∷ left) = subst (Tidy call.slots) e mine in
    let total = total-Without (λ (call : Call). call.slots) w in
    record {
      exact = ground (arith, m.0, v.exact, total, tidy.2);
      limited = omega (arith, m.1, v.limited);
      within = omega (arith, m.1, m.2, v.limited);
      tidy = rest;
    }
Step-Counted k {s} (tick ch e on lot) v = record {
  exact = v.exact;
  limited = v.limited;
  within = v.within;
  tidy = v.tidy;
}
Step-Counted k {s} halt v = record {
  exact = ground (arith, v.exact);
  limited = ground (arith, v.limited);
  within = ground (arith, v.within);
  tidy = v.tidy;
}

pub Reach-Counted :
    {s0 : System} {n : ℕ} {s : System}
    → in_use s0.circuit ≡ 0
    → s0.calls ≡ []
    → Reach s0 n s
    → Counted (room s0.circuit) s
Reach-Counted {s0} free none_yet here = record {
  exact = subst (λ l. in_use s0.circuit ≡ slots_of l) (sym none_yet) free;
  limited = refl;
  within = omega (arith, free);
  tidy = subst (All TidyCall) (sym none_yet) tt;
}
Reach-Counted free none_yet (next r st) = Step-Counted _ st (Reach-Counted free none_yet r)

ready : (c : Circuit) → 1 ≤ in_use c → effect released c ≢ none
unfolding effect
ready c h e = ground arith

-- The semaphore counts: from a free one, and however the calls of `Do`, the ticks and `Stop`
-- interleave, the values in the channel are the slots that the calls hold, which are never more
-- than its capacity; and a call that comes to give its slot back finds the channel ready, so that
-- this never blocks.
pub slots_exact :
    {s0 : System} {n : ℕ} {s : System}
    → in_use s0.circuit ≡ 0
    → s0.calls ≡ []
    → Reach s0 n s
    → (in_use s.circuit ≡ slots_of s.calls)
      × (slots_of s.calls ≤ room s0.circuit)
      × ((call : Call) (others : List Call) (left : List Action)
          → Without call s.calls others
          → call.left ≡ released ∷ left
          → effect released s.circuit ≢ none)
slots_exact free none_yet r =
    let v = Reach-Counted free none_yet r in
    (
      v.exact,
      omega (arith, v.exact, v.within),
      λ call others left w e.
          let mine = (All-Without TidyCall w v.tidy).0 in
          let tidy : Tidy call.slots (released ∷ left) = subst (Tidy call.slots) e mine in
          ready _ (omega (arith, tidy.0, total-Without (λ (call : Call). call.slots) w, v.exact)),
    )
