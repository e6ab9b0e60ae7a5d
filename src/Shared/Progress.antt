-- ===== src/Shared/Progress.antt =====
-- What calls of `Do` wait for, and one action made.
pub mod Passes
pub mod End
pub mod Schedules
pub mod Ready
use circuit_breaker.Base.{
  ℕ, zero, suc, ◌+◌, ◌-◌, ◌*◌, ◌≤◌, ◌<◌, ◌≡◌, ◌≢◌, refl, sym, ap, ◌∙◌, Bool, true, some, none,
  Option-cases, List, [], ◌∷◌, length, arith, dec_lt, All, All-Replaced, All-Without, Without,
  Replaced, Without-Replaced, total, total-Replaced, total-Without, positive_term, ◌⊎◌, inl, inr,
}
use mathlib.Core.Path.{subst}
use circuit_breaker.Base.Int.{ℤ}
use circuit_breaker.Breaker.{Outcome, report}
use circuit_breaker.Circuit.{Circuit, Channel, size_of, refill}
use circuit_breaker.Bucket.Rate.{refill-min}
use circuit_breaker.Request.{
  Action, asked, acquired, released, took_token, rewound, sent, drained, recorded, gate_extended,
  slept, reported, timeout_set, timeout_cancelled, timeout_tied,
}
use circuit_breaker.Request.Tally.{tally, one_acquired, one_released, one_reported, one_token}
use circuit_breaker.Shared.{
  effect, on_machine, Call, System, Step, act, tell, tick, Reach, here, next,
}
use circuit_breaker.Shared.Tidy.{Tidy}
use circuit_breaker.Shared.Slots.{
  in_use, room, slots_of, TidyCall, Counted, Step-Counted, Reach-Counted,
}
use circuit_breaker.Shared.Tokens.{tokens_held, tokens_room, is_limited, Moves, effect-Moves}

-- The actions that the calls have left.
abbrev pub work : List Call → ℕ
work = total (λ call. length call.left)

-- The tokens that the calls have left to take.
abbrev pub wanted : List Call → ℕ
wanted = total (λ call. tally one_token call.left)

-- The bucket is refilled, or it has these tokens.
abbrev pub IsSupplied : System → Type 0
IsSupplied s = (s.circuit.refilling ≡ true) ⊎ (wanted s.calls ≤ tokens_held s.circuit)

-- Both limits are in place, and the tokens come.
pub record IsServed (s : System) : Type 0 where
  pub seats : 1 ≤ room s.circuit
  pub limited : is_limited s.circuit ≡ true
  pub depth : 1 ≤ tokens_room s.circuit
  pub full : tokens_held s.circuit ≤ tokens_room s.circuit
  pub supply : IsSupplied s
  pub lot_size : 1 ≤ size_of s.circuit.tokens_per_tick

-- A call that gives back the slot that it takes.
abbrev pub IsReturning : Call → Type 0
IsReturning call = call.slots + tally one_acquired call.left ≡ tally one_released call.left

-- A run that makes an action of a call, after a tick if it needs a token.
record Advances (most k : ℕ) (s : System) : Type 0 where
  pub steps : ℕ
  pub end : System
  pub run : Reach s steps end
  pub few : steps ≤ most
  pub less : work end.calls < work s.calls
  pub counted : Counted k end
  pub served : IsServed end
  pub kept : All IsReturning s.calls → All IsReturning end.calls

Reach-append :
    {s : System} {n : ℕ} {t : System} {m : ℕ} {u : System}
    → Reach s n t
    → Reach t m u
    → Reach s (m + n) u
Reach-append {s} {n} {t} r here = subst (λ i. Reach s i t) (omega arith) r
Reach-append {s} {n} {t} {m} {u} r (next {n = j} q st) =
    subst (λ i. Reach s i u) (omega arith) (next (Reach-append r q) st)

-- An action that does not block is made.
acts :
    (k : ℕ) (s : System) (call : Call) (others : List Call) (a : Action) (left : List Action)
    (c : Circuit)
    → Counted k s
    → IsServed s
    → Without call s.calls others
    → call.left ≡ a ∷ left
    → one_reported a ≡ 0
    → effect a s.circuit ≡ some c
    → Advances 1 k s
unfolding Moves
acts k s call others a left c v g w e silent q =
    let (calls, r) =
      Without-Replaced
        (record call { slots = call.slots + one_acquired a - one_released a; left = left }) w in
    let st = act r e silent q in
    let m = effect-Moves a s.circuit c q in
    let counted = Step-Counted k st v in
    let less = total-Replaced (λ (x : Call). length x.left) r in
    let mine : length call.left ≡ suc (length left) = ap length e in
    let orderly : Tidy call.slots (a ∷ left) =
      subst (Tidy call.slots) e ((All-Without TidyCall w v.tidy).0) in
    let took : tally one_acquired call.left ≡ one_acquired a + tally one_acquired left =
      ap (tally one_acquired) e in
    let gave : tally one_released call.left ≡ one_released a + tally one_released left =
      ap (tally one_released) e in
    record {
      steps = 1;
      end = record { circuit = c; calls = calls };
      run = next here st;
      few = omega arith;
      less = omega (arith, less, mine);
      counted = counted;
      served = record {
        seats = omega (arith, g.seats, counted.limited, v.limited);
        limited = m.2 ∙ g.limited;
        depth = omega (arith, m.1, g.depth);
        full = omega (arith, m.0, m.1, g.full);
        supply = elim g.supply [
          | inl on ↦ inl (m.3 ∙ on)
          | inr enough ↦ inr (
              omega (
                arith,
                enough,
                m.0,
                total-Replaced (λ (x : Call). tally one_token x.left) r,
                ap (tally one_token) e,
              ))
        ];
        lot_size = omega (arith, ap size_of m.4, g.lot_size);
      };
      kept = λ h.
          let (was, put) = All-Replaced IsReturning r h in
          put (omega (arith, was, took, gave, orderly.0));
    }

-- A report is made.
tells_one :
    (k : ℕ) (s : System) (call : Call) (others : List Call) (probe : Bool) (gen : ℕ) (now : ℤ)
    (o : Outcome) (left : List Action)
    → Counted k s
    → IsServed s
    → Without call s.calls others
    → call.left ≡ reported probe gen now o ∷ left
    → Advances 1 k s
unfolding Moves effect
tells_one k s call others probe gen now o left v g w e =
    let c = record s.circuit { state = on_machine (report probe gen now o) s.circuit.state } in
    let st : Step s (record { circuit = c; calls = others }) = tell probe gen now o w e refl in
    let less = total-Without (λ (x : Call). length x.left) w in
    let mine : length call.left ≡ suc (length left) = ap length e in
    record {
      steps = 1;
      end = record { circuit = c; calls = others };
      run = next here st;
      few = omega arith;
      less = omega (arith, less, mine);
      counted = Step-Counted k st v;
      served = record {
        seats = g.seats;
        limited = g.limited;
        depth = g.depth;
        full = g.full;
        supply = elim g.supply [
          | inl on ↦ inl on
          | inr enough ↦ inr (
              omega (
                arith,
                enough,
                total-Without (λ (x : Call). tally one_token x.left) w,
                ap (tally one_token) e,
              ))
        ];
        lot_size = g.lot_size;
      };
      kept = λ h. (All-Without IsReturning w h).1;
    }
