-- ===== src/Shared/Rate.antt =====
-- The limit on the rate under interleaved calls of `Do`.
use circuit_breaker.Base.{
  total, total-Replaced, total-Without, ℕ, ◌+◌, ◌-◌, ◌*◌, ◌/◌, ◌≤◌, ◌<◌, ◌≡◌, refl, ap, ◌∙◌, true,
  false, List, arith, Option-cases, inl, inr,
}
use circuit_breaker.Circuit.{refill, stop}
use circuit_breaker.Bucket.Rate.{refill-min, ticks_in_window}
use circuit_breaker.Request.{asked, reported}
use circuit_breaker.Request.Tally.{one_sent, one_token}
use circuit_breaker.Request.Paced.{owed, token_grants, begun-owed, entered-owed}
use circuit_breaker.Shared.Tokens.{is_limited, tokens_held, tokens_room, Moves, effect-Moves}
use circuit_breaker.Shared.{
  Call, System, Step, enter, begin, refused, act, tell, tick, halt, Reach, here, next,
}

-- What a step sends, and what it puts towards the bucket.
abbrev pub sent_by : {s t : System} → Step s t → ℕ
sent_by (enter req env e a run q) = 0
sent_by (begin req env e) = 0
sent_by (refused now e a q) = 0
sent_by (act {a} w e silent q) = one_sent a
sent_by (tell probe gen now o w e q) = 0
sent_by (tick ch e on lot) = 0
sent_by halt = 0

abbrev pub added_by : {s t : System} → Step s t → ℕ
added_by (enter req env e a run q) = 0
added_by (begin req env e) = 0
added_by (refused now e a q) = 0
added_by (act w e silent q) = 0
added_by (tell probe gen now o w e q) = 0
added_by (tick ch e on lot) = 1
added_by halt = 0

-- The same for a run.
abbrev pub sends : {s : System} {n : ℕ} {t : System} → Reach s n t → ℕ
sends here = 0
sends (next r st) = sent_by st + sends r

abbrev pub added : {s : System} {n : ℕ} {t : System} → Reach s n t → ℕ
added here = 0
added (next r st) = added_by st + added r

-- The tokens that the calls have taken for sends still to come.
abbrev pub owed_all : List Call → ℕ
owed_all = total (λ call. owed one_token call.left 0)

pub record Budget (start : ℕ) (s : System) (out given : ℕ) : Type 0 where
  pub limited : is_limited s.circuit ≡ true
  pub paid : out + owed_all s.calls + tokens_held s.circuit ≤ start + given
  pub full : tokens_held s.circuit ≤ tokens_room s.circuit

Step-Budget :
    (start out given : ℕ) {s t : System} (st : Step s t)
    → Budget start s out given
    → Budget start t (sent_by st + out) (added_by st + given)
unfolding Moves stop
Step-Budget start out given {s} (enter req env {b} {c} {left} e a run q) v =
    let m = effect-Moves (asked env.asked_at) s.circuit c q in
    elim (Option-cases s.circuit.tokens) [
      | inl absent ↦ absurd (ground (arith, v.limited))
      | inr (ch, has) ↦
          let none_owed =
            entered-owed one_token s.circuit req env (token_grants s.circuit ch has) b left e a
              run in
          record {
            limited = m.2 ∙ v.limited;
            paid = omega (arith, m.0, v.paid, none_owed);
            full = omega (arith, m.0, m.1, v.full);
          }
    ]
Step-Budget start out given {s} (begin req env e) v = elim (Option-cases s.circuit.tokens) [
  | inl absent ↦ absurd (ground (arith, v.limited))
  | inr (ch, has) ↦ record {
    limited = v.limited;
    paid =
        omega
          (arith, v.paid, begun-owed one_token s.circuit req env (token_grants s.circuit ch has) e);
    full = v.full;
  }
]
Step-Budget start out given {s} (refused now {b} {c} e a q) v =
    let m = effect-Moves (asked now) s.circuit c q in
    record {
      limited = m.2 ∙ v.limited;
      paid = omega (arith, m.0, v.paid);
      full = omega (arith, m.0, m.1, v.full);
    }
Step-Budget start out given {s} (act {call} {calls} {c} {a} {left} w e silent q) v =
    let m = effect-Moves a s.circuit c q in
    let total = total-Replaced (λ (call : Call). owed one_token call.left 0) w in
    let mine : owed one_token call.left 0 ≡ owed one_token left 0 + one_sent a - one_token a =
      ap (λ l. owed one_token l 0) e in
    record {
      limited = m.2 ∙ v.limited;
      paid = omega (arith, m.0, v.paid, total, mine);
      full = omega (arith, m.0, m.1, v.full);
    }
Step-Budget start out given {s} (tell {call} {others} {c} probe gen now o {left} w e q) v =
    let m = effect-Moves (reported probe gen now o) s.circuit c q in
    record {
      limited = m.2 ∙ v.limited;
      paid =
          omega (arith, m.0, v.paid, total-Without (λ (call : Call). owed one_token call.left 0) w);
      full = omega (arith, m.0, m.1, v.full);
    }
Step-Budget start out given {s} (tick ch e on lot) v =
    let held : tokens_held s.circuit ≡ ch.held = ground arith in
    let room : tokens_room s.circuit ≡ ch.capacity = ground arith in
    let f = refill-min 1 ch (omega (arith, held, room, v.full)) in
    let more : (refill 1 ch).held ≤ ch.held + 1 = ground (arith, f) in
    let within : (refill 1 ch).held ≤ (refill 1 ch).capacity =
      ground (arith, f, held, room, v.full) in
    record { limited = refl; paid = omega (arith, more, held, v.paid); full = within }
Step-Budget start out given {s} halt v = record {
  limited = ground (arith, v.limited);
  paid = ground (arith, v.paid);
  full = ground (arith, v.full);
}

-- After `Stop` there are no ticks.
Step-quiet :
    {s t : System} (st : Step s t)
    → s.circuit.refilling ≡ false
    → (t.circuit.refilling ≡ false) × (added_by st ≡ 0)
unfolding Moves stop
Step-quiet {s} (enter req env {b} {c} e a run q) h =
    ((effect-Moves (asked env.asked_at) s.circuit c q).3 ∙ h, refl)
Step-quiet (begin req env e) h = (h, refl)
Step-quiet {s} (refused now {b} {c} e a q) h =
    ((effect-Moves (asked now) s.circuit c q).3 ∙ h, refl)
Step-quiet {s} (act {c = c} {a = a} w e silent q) h = ((effect-Moves a s.circuit c q).3 ∙ h, refl)
Step-quiet {s} (tell {c = c} probe gen now o w e q) h =
    ((effect-Moves (reported probe gen now o) s.circuit c q).3 ∙ h, refl)
Step-quiet (tick ch e on lot) h = absurd (cc)
Step-quiet halt h = (ground (arith, h), refl)

Reach-quiet :
    {s0 : System} {n : ℕ} {s : System} (r : Reach s0 n s)
    → s0.circuit.refilling ≡ false
    → (s.circuit.refilling ≡ false) × (added r ≡ 0)
Reach-quiet here h = (h, refl)
Reach-quiet (next r st) h =
    let before = Reach-quiet r h in
    let now = Step-quiet st before.0 in (now.0, omega (arith, before.1, now.1))

pub Reach-Budget :
    {s0 : System} {n : ℕ} {s : System}
    → is_limited s0.circuit ≡ true
    → tokens_held s0.circuit ≤ tokens_room s0.circuit
    → (r : Reach s0 n s) → Budget (owed_all s0.calls + tokens_held s0.circuit) s (sends r) (added r)
Reach-Budget {s0} limit full here = record { limited = limit; paid = omega arith; full = full }
Reach-Budget limit full (next r st) =
    Step-Budget _ (sends r) (added r) st (Reach-Budget limit full r)

-- The limit on the rate holds for all callers together. Take a run of a breaker with a token
-- bucket, with a machine or without, from any state, however the calls of `Do`, the ticks of the
-- refill and `Stop` interleave. The requests that it sends, retries included, are never more than
-- the tokens that the calls in flight had already taken for sends to come, those in the bucket, and
-- those that the ticks offered. If the goroutine that refills does not run at the start of the run,
-- as after `Stop`, the ticks offer none. Now take a window of `w` ns, single tokens at the interval
-- `w / m` that the setup computes, and `m` at most that interval: if the first and the last tick of
-- the run lie less than `w` apart, the requests sent are at most those already paid, the bucket's
-- capacity and `m + 1` more.
pub sends_in_window :
    {s0 : System} {n : ℕ} {s : System}
    → is_limited s0.circuit ≡ true
    → tokens_held s0.circuit ≤ tokens_room s0.circuit
    → (r : Reach s0 n s)
    → (sends r ≤ owed_all s0.calls + tokens_held s0.circuit + added r)
      × (s0.circuit.refilling ≡ false → added r ≡ 0)
      × ((w m : ℕ)
          → 0 < m
          → m ≤ w / m
          → (added r - 1) * (w / m) < w
          → sends r ≤ owed_all s0.calls + tokens_room s0.circuit + m + 1)
sends_in_window limit full r =
    let v = Reach-Budget limit full r in
    (
      omega (arith, v.paid),
      λ stopped. (Reach-quiet r stopped).1,
      λ w m p h lt. omega (arith, v.paid, full, ticks_in_window w m (added r - 1) p h lt),
    )
