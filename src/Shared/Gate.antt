-- ===== src/Shared/Gate.antt =====
-- The Retry-After gate under interleaved calls of `Do`.
use circuit_breaker.Base.{ℕ, ◌≡◌, List, [], ◌∷◌, ◌++◌, All, All-append, some, arith}
use circuit_breaker.Base.Int.{ℤ, ◌≤ℤ◌}
use circuit_breaker.Circuit.{Circuit, stop}
use circuit_breaker.RetryAfter.{extend_gate}
use circuit_breaker.Request.{
  Action, asked, acquired, released, took_token, rewound, sent, drained, recorded, gate_extended,
  slept, reported, timeout_set, timeout_cancelled, timeout_tied,
}
use circuit_breaker.Shared.{
  effect, System, Step, enter, begin, refused, act, tell, tick, halt, Reach, here, next,
}

-- The ends of the pauses that an action, a step and a run ask for.
abbrev pub pause_of : Action → List ℤ
pause_of (gate_extended until) = until ∷ []
pause_of _ = []

abbrev pub paused_by : {s t : System} → Step s t → List ℤ
paused_by (enter req env e a run q) = []
paused_by (begin req env e) = []
paused_by (refused now e a q) = []
paused_by (act {a} w e silent q) = pause_of a
paused_by (tell probe gen now o w e q) = []
paused_by (tick ch e on lot) = []
paused_by halt = []

abbrev pub pauses : {s : System} {n : ℕ} {t : System} → Reach s n t → List ℤ
pauses here = []
pauses (next r st) = paused_by st ++ pauses r

abbrev pub gate_of : System → ℤ
gate_of s = s.circuit.retry_after_until

abbrev pub IsUpTo : ℤ → ℤ → Type 0
IsUpTo gate until = until ≤ℤ gate

le_trans_ℤ : (a b c : ℤ) → a ≤ℤ b → b ≤ℤ c → a ≤ℤ c
le_trans_ℤ a b c h k = ground arith

le_refl_ℤ : (a : ℤ) → a ≤ℤ a
le_refl_ℤ a = ground arith

effect_gate :
    (a : Action) (c c' : Circuit)
    → effect a c ≡ some c'
    → (c.retry_after_until ≤ℤ c'.retry_after_until) × All (IsUpTo c'.retry_after_until) (pause_of a)
unfolding effect extend_gate
effect_gate (asked now) c c' e = (ground arith, tt)
effect_gate acquired c c' e = (ground arith, tt)
effect_gate released c c' e = (ground arith, tt)
effect_gate took_token c c' e = (ground arith, tt)
effect_gate rewound c c' e = (ground arith, tt)
effect_gate sent c c' e = (ground arith, tt)
effect_gate drained c c' e = (ground arith, tt)
effect_gate (recorded u) c c' e = (ground arith, tt)
effect_gate (gate_extended g) c c' e = (ground arith, (ground arith, tt))
effect_gate (slept d) c c' e = (ground arith, tt)
effect_gate (reported p g t o) c c' e = (ground arith, tt)
effect_gate (timeout_set d) c c' e = (ground arith, tt)
effect_gate timeout_cancelled c c' e = (ground arith, tt)
effect_gate timeout_tied c c' e = (ground arith, tt)

Step-gate :
    {s t : System} (st : Step s t)
    → (gate_of s ≤ℤ gate_of t) × All (IsUpTo (gate_of t)) (paused_by st)
unfolding stop
Step-gate {s} (enter req env {b} {c} e a run q) =
    ((effect_gate (asked env.asked_at) s.circuit c q).0, tt)
Step-gate {s} (begin req env e) = (le_refl_ℤ (gate_of s), tt)
Step-gate {s} (refused now {b} {c} e a q) = ((effect_gate (asked now) s.circuit c q).0, tt)
Step-gate {s} (act {c = c} {a = a} w e silent q) = effect_gate a s.circuit c q
Step-gate {s} (tell {c = c} probe gen now o w e q) =
    ((effect_gate (reported probe gen now o) s.circuit c q).0, tt)
Step-gate {s} (tick ch e on lot) = (le_refl_ℤ (gate_of s), tt)
Step-gate {s} halt = (ground arith, tt)

-- A gate that has risen still covers what it covered.
All-raised : (g g' : ℤ) (us : List ℤ) → g ≤ℤ g' → All (IsUpTo g) us → All (IsUpTo g') us
All-raised g g' [] up h = tt
All-raised g g' (u ∷ us) up h = (le_trans_ℤ u g g' h.0 up, All-raised g g' us up h.1)

-- The gate only goes up. Over any run of calls of `Do`, ticks and `Stop`, in any order, it ends at
-- or above where it began, and no earlier than the end of any pause that the run asked it for.
pub gate_covers :
    {s0 : System} {n : ℕ} {s : System} (r : Reach s0 n s)
    → (gate_of s0 ≤ℤ gate_of s) × All (IsUpTo (gate_of s)) (pauses r)
gate_covers {s0} here = (le_refl_ℤ (gate_of s0), tt)
gate_covers {s0} (next {n} {t} {u} r st) =
    let before = gate_covers r in
    let now = Step-gate st in
    (
      le_trans_ℤ (gate_of s0) (gate_of t) (gate_of u) before.0 now.0,
      All-append (IsUpTo (gate_of u)) (paused_by st) (pauses r) now.1
          (All-raised (gate_of t) (gate_of u) (pauses r) now.0 before.1),
    )
