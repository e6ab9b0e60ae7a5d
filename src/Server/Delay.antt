-- ===== src/Server/Delay.antt =====
-- The simulated delay keeps to its bounds.
use circuit_breaker.Base.{ℕ, ◌+◌, ◌-◌, ◌^◌, ◌≤◌, ◌<◌, ◌≡◌, ap, ◌∙◌, none, some, arith, dec_lt}
use circuit_breaker.Base.Int.{pos, ◌+ℤ◌, ◌-ℤ◌}
use circuit_breaker.Base.Words.{int64, int64_exact}
use circuit_breaker.Server.{FakeServer, set_delay, handle_begin, delay_of}

span : (min max : ℕ) → min < max → pos max -ℤ pos min +ℤ pos 1 ≡ pos (max - min + 1)
unfolding ◌+ℤ◌ ◌-ℤ◌
span min max h = ground arith

sum_pos : (a b : ℕ) → pos a +ℤ pos b ≡ pos (a + b)
unfolding ◌+ℤ◌
sum_pos a b = ground arith

drawn :
    (draw : ℕ → ℕ) (min max : ℕ)
    → ((k : ℕ) → 0 < k → draw k < k)
    → min < max
    → max < 2 ^ 63
    → max - min + 1 < 2 ^ 63
    → delay_of draw (pos min, pos max) ≡ some (pos (min + draw (max - min + 1)))
unfolding delay_of
drawn draw min max fair lt top room =
    let s = span min max lt in
    let d = fair (max - min + 1) (omega arith) in
    let e = int64_exact (pos (max - min + 1)) (omega arith, omega arith) in
    let t = sum_pos min (draw (max - min + 1)) in
    let x = int64_exact (pos (min + draw (max - min + 1))) (omega arith, omega (arith, d)) in
    ground (arith, s, e, t, x)

wrapped :
    (draw : ℕ → ℕ) (min max : ℕ)
    → min < max
    → max - min + 1 ≡ 2 ^ 63
    → delay_of draw (pos min, pos max) ≡ none
unfolding delay_of int64
wrapped draw min max lt w =
    let s : pos max -ℤ pos min +ℤ pos 1 ≡ pos (2 ^ 63) = span min max lt ∙ ap pos w in
    ground (arith, s)

equal : (draw : ℕ → ℕ) (min : ℕ) → delay_of draw (pos min, pos min) ≡ some (pos min)
unfolding delay_of
equal draw min = ground arith

-- What `SetDelay` leaves for the requests.
bounds :
    (min max : ℕ) (f : FakeServer)
    → (handle_begin (set_delay (pos min) (pos max) f)).0
      ≡ (pos min, pos (Prim.Native.Nat.max min max))
unfolding handle_begin set_delay
bounds min max f = ground arith

-- After `SetDelay(min, max)` with bounds from 0 to the largest int64, a request is delayed, without a
-- panic, by `min` at least and by the larger of the two at most; except that after SetDelay(0,
-- math.MaxInt64) every request panics, since the argument of `Int63n` wraps.
pub delay_of-set_delay :
    (draw : ℕ → ℕ) (min max : ℕ) (f : FakeServer)
    → ((k : ℕ) → 0 < k → draw k < k)
    → min < 2 ^ 63
    → max < 2 ^ 63
    → let delay = delay_of draw (handle_begin (set_delay (pos min) (pos max) f)).0 in
      (max - min + 1 < 2 ^ 63
        → (d : ℕ) × (delay ≡ some (pos d)) × (min ≤ d) × (d ≤ Prim.Native.Nat.max min max))
      × (max - min + 1 ≡ 2 ^ 63 → delay ≡ none)
delay_of-set_delay draw min max f fair lo top = elim (dec_lt min max) [
  | yes lt ↦
      let b : (handle_begin (set_delay (pos min) (pos max) f)).0 ≡ (pos min, pos max) =
        bounds min max f ∙ ap (λ (m : ℕ). (pos min, pos m)) (omega arith) in
      (
        λ room. (
          min + draw (max - min + 1),
          rw (b) (drawn draw min max fair lt top room),
          omega arith,
          omega (arith, fair (max - min + 1) (omega arith)),
        ),
        λ w. rw (b) (wrapped draw min max lt w),
      )
  | no ge ↦
      let b : (handle_begin (set_delay (pos min) (pos max) f)).0 ≡ (pos min, pos min) =
        bounds min max f ∙ ap (λ (m : ℕ). (pos min, pos m)) (omega arith) in
      (λ room. (min, rw (b) (equal draw min), omega arith, omega arith), λ w. absurd (omega arith))
]
