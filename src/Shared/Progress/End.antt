-- ===== src/Shared/Progress/End.antt =====
-- No deadlock: what calls of `Do` wait for comes.
use circuit_breaker.Base.{
  ℕ, zero, suc, ◌+◌, ◌*◌, ◌≤◌, ◌<◌, ◌≡◌, refl, ap, List, [], ◌∷◌, length, arith, dec_lt, All,
  All-Without, Without, positive_term, ◌⊎◌, inl, inr,
}
use circuit_breaker.Request.{Action}
use circuit_breaker.Request.Tally.{tally, one_acquired, one_released}
use circuit_breaker.Shared.{Call, System, Reach, here}
use circuit_breaker.Shared.Slots.{in_use, room, slots_of, Counted, Reach-Counted}
use circuit_breaker.Shared.Progress.{IsReturning, IsServed, Advances, Reach-append, work}
use circuit_breaker.Shared.Progress.Passes.{Abandoned, holder, moves_on}

works :
    (k : ℕ) (s : System)
    → Counted k s
    → IsServed s
    → 0 < work s.calls
    → Advances 2 k s ⊎ Abandoned s
works k s v g h =
    let (call, others, w, has) = positive_term (λ (x : Call). length x.left) s.calls h in
    split call others w has call.left refl
  where
    split :
        (call : Call) (others : List Call)
        → Without call s.calls others
        → 0 < length call.left
        → (left : List Action) → call.left ≡ left
        → Advances 2 k s ⊎ Abandoned s
    split call others w has [] e = absurd (omega (arith, has, ap length e))
    split call others w has (a ∷ left) e = moves_on k s call others a left v g w e

-- A run to the end.
pub record Winds (most : ℕ) (s : System) : Type 0 where
  pub steps : ℕ
  pub end : System
  pub run : Reach s steps end
  pub few : steps ≤ 2 * most
  pub over : work end.calls ≡ 0
  pub free : in_use end.circuit ≡ 0

not-Abandoned : (s : System) → All IsReturning s.calls → Abandoned s → ⊥
unfolding Abandoned
not-Abandoned s h (call, others, w, has, e) =
    let mine = (All-Without IsReturning w h).0 in
    omega (arith, has, mine, ap (tally one_acquired) e, ap (tally one_released) e)

All-free :
    (k : ℕ) (s : System)
    → Counted k s
    → IsServed s
    → All IsReturning s.calls
    → work s.calls ≡ 0
    → in_use s.circuit ≡ 0
All-free k s v g h z = elim (dec_lt 0 (slots_of s.calls)) [
  | no none_held ↦ omega (arith, v.exact, none_held)
  | yes some_held ↦ elim (holder k s v g some_held) [
    | inl more ↦ absurd (omega (arith, more.less, z))
    | inr x ↦ absurd (not-Abandoned s h x)
  ]
]

stays :
    (k most : ℕ) (s : System)
    → Counted k s
    → IsServed s
    → All IsReturning s.calls
    → work s.calls ≡ 0
    → Winds most s
stays k most s v g h z = record {
  steps = 0;
  end = s;
  run = here;
  few = omega arith;
  over = z;
  free = All-free k s v g h z;
}

winds :
    (k most : ℕ) (s : System)
    → work s.calls ≤ most
    → Counted k s
    → IsServed s
    → All IsReturning s.calls
    → Winds most s
winds k zero s le v g h = stays k zero s v g h (omega (arith, le))
winds k (suc most) s le v g h = elim (dec_lt 0 (work s.calls)) [
  | no idle ↦ stays k (suc most) s v g h (omega (arith, idle))
  | yes some_left ↦ elim (works k s v g some_left) [
    | inr x ↦ absurd (not-Abandoned s h x)
    | inl a ↦
        let rest = winds k most a.end (omega (arith, a.less, le)) a.counted a.served (a.kept h) in
        record {
          steps = rest.steps + a.steps;
          end = rest.end;
          run = Reach-append a.run rest.run;
          few = omega (arith, rest.few, a.few);
          over = rest.over;
          free = rest.free;
        }
  ]
]

pub wind_up :
    {s0 : System} {n : ℕ} {s : System}
    → in_use s0.circuit ≡ 0
    → s0.calls ≡ []
    → Reach s0 n s
    → IsServed s
    → All IsReturning s.calls
    → Winds (work s.calls) s
wind_up {s0} {n} {s} free none_yet r g h =
    winds (room s0.circuit) (work s.calls) s (omega arith) (Reach-Counted free none_yet r) g h
