-- ===== src/Shared/Progress/Passes.antt =====
-- An action that is not made at once waits for a tick, or for a call that holds a slot.
use circuit_breaker.Base.{
  ℕ, ◌+◌, ◌≤◌, ◌<◌, ◌≡◌, ◌≢◌, refl, ap, ◌∙◌, Bool, true, some, none, Option-cases, List, [], ◌∷◌,
  arith, dec_lt, All-Without, Without, total-Without, positive_term, ◌⊎◌, inl, inr,
}
use mathlib.Core.Path.{subst}
use circuit_breaker.Base.Int.{ℤ}
use circuit_breaker.Breaker.{Outcome}
use circuit_breaker.Circuit.{Circuit, Channel, size_of, refill}
use circuit_breaker.Bucket.Rate.{refill-min}
use circuit_breaker.Request.{
  Action, asked, acquired, released, took_token, rewound, sent, drained, recorded, gate_extended,
  slept, reported, timeout_set, timeout_cancelled, timeout_tied,
}
use circuit_breaker.Request.Tally.{tally, one_acquired, one_reported, one_token}
use circuit_breaker.Shared.{effect, Call, System, tick, here, next}
use circuit_breaker.Shared.Tidy.{Tidy}
use circuit_breaker.Shared.Slots.{in_use, room, slots_of, TidyCall, Counted, Step-Counted}
use circuit_breaker.Shared.Tokens.{tokens_held, tokens_room, is_limited}
use circuit_breaker.Shared.Progress.{IsServed, Advances, Reach-append, acts, tells_one}

-- A tick that makes a token available.
abbrev ticked : System → Channel → System
ticked s ch = record s { circuit = record s.circuit { tokens = some (refill 1 ch) } }

ticked-IsServed :
    (s : System) (ch : Channel)
    → s.circuit.tokens ≡ some ch
    → IsServed s
    → s.circuit.refilling ≡ true
    → IsServed (ticked s ch) × (1 ≤ tokens_held (ticked s ch).circuit)
ticked-IsServed s ch e g on =
    let held : tokens_held s.circuit ≡ ch.held = ground arith in
    let deep : tokens_room s.circuit ≡ ch.capacity = ground arith in
    let f = refill-min 1 ch (omega (arith, held, deep, g.full)) in
    (
      record {
        seats = g.seats;
        limited = refl;
        depth = ground (arith, f, deep, g.depth);
        full = ground (arith, f, held, deep, g.full);
        supply = inl on;
        lot_size = g.lot_size;
      },
      ground (arith, f, deep, g.depth),
    )

-- Why an action blocks.
blocks :
    (a : Action) (c : Circuit)
    → effect a c ≡ none
    → is_limited c ≡ true
    → ((a ≡ released) × (in_use c ≡ 0))
      ⊎ ((a ≡ took_token) × (tokens_held c ≡ 0))
      ⊎ ((a ≡ acquired) × (room c ≤ in_use c))
unfolding effect
blocks released c e l = inl (refl, ground arith)
blocks took_token c e l = inr (inl (refl, ground arith))
blocks acquired c e l = inr (inr (refl, ground arith))
blocks (asked now) c e l = absurd (cc)
blocks rewound c e l = absurd (cc)
blocks sent c e l = absurd (cc)
blocks drained c e l = absurd (cc)
blocks (recorded u) c e l = absurd (cc)
blocks (gate_extended g) c e l = absurd (cc)
blocks (slept d) c e l = absurd (cc)
blocks (reported p g t o) c e l = absurd (cc)
blocks (timeout_set d) c e l = absurd (cc)
blocks timeout_cancelled c e l = absurd (cc)
blocks timeout_tied c e l = absurd (cc)

is_report :
    (a : Action)
    → (one_reported a ≡ 0)
      ⊎ ((p : Bool) × (g : ℕ) × (t : ℤ) × (o : Outcome) × (a ≡ reported p g t o))
is_report (reported p g t o) = inr (p, g, t, o, refl)
is_report released = inl refl
is_report took_token = inl refl
is_report acquired = inl refl
is_report (asked now) = inl refl
is_report rewound = inl refl
is_report sent = inl refl
is_report drained = inl refl
is_report (recorded u) = inl refl
is_report (gate_extended g) = inl refl
is_report (slept d) = inl refl
is_report (timeout_set d) = inl refl
is_report timeout_cancelled = inl refl
is_report timeout_tied = inl refl

later_by_one :
    (k : ℕ) (s : System) (ch : Channel)
    → s.circuit.tokens ≡ some ch
    → s.circuit.refilling ≡ true
    → 1 ≤ size_of s.circuit.tokens_per_tick
    → Advances 1 k (ticked s ch)
    → Advances 2 k s
later_by_one k s ch e on lot v = record {
  steps = v.steps + 1;
  end = v.end;
  run = Reach-append (next here (tick ch e on lot)) v.run;
  few = omega (arith, v.few);
  less = v.less;
  counted = v.counted;
  served = v.served;
  kept = v.kept;
}

at_once : (k : ℕ) (s : System) → Advances 1 k s → Advances 2 k s
at_once k s v = record {
  steps = v.steps;
  end = v.end;
  run = v.run;
  few = omega (arith, v.few);
  less = v.less;
  counted = v.counted;
  served = v.served;
  kept = v.kept;
}

takes_token : (c : Circuit) → 1 ≤ tokens_held c → (c' : Circuit) × (effect took_token c ≡ some c')
unfolding effect
takes_token c h = elim (Option-cases (effect took_token c)) [
  | inl e ↦ absurd (ground arith)
  | inr (c', e) ↦ (c', e)
]

-- Any action but taking a slot comes through.
passes :
    (k : ℕ) (s : System) (call : Call) (others : List Call) (a : Action) (left : List Action)
    → Counted k s
    → IsServed s
    → Without call s.calls others
    → call.left ≡ a ∷ left
    → a ≢ acquired
    → Advances 2 k s
passes k s call others a left v g w e ne = elim (is_report a) [
  | inr (p, h, t, o, q) ↦
      at_once k s (tells_one k s call others p h t o left v g w (e ∙ ap (λ x. x ∷ left) q))
  | inl silent ↦ elim (Option-cases (effect a s.circuit)) [
    | inr (c, q) ↦ at_once k s (acts k s call others a left c v g w e silent q)
    | inl b ↦ elim (blocks a s.circuit b g.limited) [
      | inl (is_release, free) ↦
          let mine = (All-Without TidyCall w v.tidy).0 in
          let tidy : Tidy call.slots (released ∷ left) =
            subst (Tidy call.slots) (e ∙ ap (λ x. x ∷ left) is_release) mine in
          absurd (omega (arith, tidy.0, total-Without (λ (x : Call). x.slots) w, v.exact, free))
      | inr (inl (is_take, empty)) ↦ elim (Option-cases s.circuit.tokens) [
        | inl unlimited ↦ absurd (ground (arith, g.limited))
        | inr (ch, has) ↦ elim g.supply [
          | inl on ↦
              let (served, token) = ticked-IsServed s ch has g on in
              let (c, q) = takes_token (ticked s ch).circuit token in
              later_by_one k s ch has on g.lot_size (
                acts k (ticked s ch) call others took_token left c
                  (Step-Counted k (tick ch has on g.lot_size) v) served w
                  (e ∙ ap (λ x. x ∷ left) is_take) refl q)
          | inr enough ↦
              let mine : tally one_token call.left ≡ 1 + tally one_token left =
                ap (tally one_token) (e ∙ ap (λ x. x ∷ left) is_take) in
              absurd (
                omega (
                  arith,
                  enough,
                  empty,
                  mine,
                  total-Without (λ (x : Call). tally one_token x.left) w,
                ))
        ]
      ]
      | inr (inr (is_acquire, full)) ↦ absurd (ne is_acquire)
    ]
  ]
]

-- A call that waits for ever with a slot.
unfoldable pub Abandoned : System → Type 0
Abandoned s =
    (call : Call) × (others : List Call) × Without call s.calls others
    × (0 < call.slots)
    × (call.left ≡ [])

-- Whoever holds a slot does not wait for one.
pub holder :
    (k : ℕ) (s : System)
    → Counted k s
    → IsServed s
    → 0 < slots_of s.calls
    → Advances 2 k s ⊎ Abandoned s
unfolding Abandoned
holder k s v g h =
    let (call, others, w, has) = positive_term (λ (x : Call). x.slots) s.calls h in
    split call others w has call.left refl
  where
    split :
        (call : Call) (others : List Call)
        → Without call s.calls others
        → 0 < call.slots
        → (left : List Action) → call.left ≡ left
        → Advances 2 k s ⊎ Abandoned s
    split call others w has [] e = inr (call, others, w, has, e)
    split call others w has (a ∷ left) e =
        let mine = (All-Without TidyCall w v.tidy).0 in
        let tidy : Tidy call.slots (a ∷ left) = subst (Tidy call.slots) e mine in
        inl (
          passes k s call others a left v g w e (λ q.
            let again : Tidy call.slots (acquired ∷ left) =
              subst (λ b. Tidy call.slots (b ∷ left)) q tidy in
            omega (arith, again.1, has)))

-- The same for any action, if only a holder keeps it waiting.
pub moves_on :
    (k : ℕ) (s : System) (call : Call) (others : List Call) (a : Action) (left : List Action)
    → Counted k s
    → IsServed s
    → Without call s.calls others
    → call.left ≡ a ∷ left
    → Advances 2 k s ⊎ Abandoned s
moves_on k s call others a left v g w e = elim (dec_lt 0 (one_acquired a)) [
  | no z ↦ inl (passes k s call others a left v g w e (λ q. omega (arith, z, ap one_acquired q)))
  | yes p ↦ elim (is_report a) [
    | inr (pr, h, t, o, q) ↦ absurd (omega (arith, p, ap one_acquired q))
    | inl silent ↦ elim (Option-cases (effect a s.circuit)) [
      | inr (c, q) ↦ inl (at_once k s (acts k s call others a left c v g w e silent q))
      | inl b ↦ elim (blocks a s.circuit b g.limited) [
        | inl (q, free) ↦ absurd (omega (arith, p, ap one_acquired q))
        | inr (inl (q, empty)) ↦ absurd (omega (arith, p, ap one_acquired q))
        | inr (inr (q, full)) ↦ holder k s v g (omega (arith, v.exact, full, g.seats))
      ]
    ]
  ]
]
