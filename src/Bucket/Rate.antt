-- ===== src/Bucket/Rate.antt =====
-- How many calls the bucket lets through.
use circuit_breaker.Base.{
  ℕ, zero, suc, ◌+◌, ◌-◌, ◌*◌, ◌/◌, ◌≤◌, ◌<◌, ◌≡◌, refl, List, [], ◌∷◌, some, none, arith, dec_lt,
}
use native.Mathlib.Nat.{div-add-mod, mod-lt}
use Prim.Native.Nat.{min}
use circuit_breaker.Circuit.{Channel, refill}
use circuit_breaker.Bucket.{Step, tick, receive, step, run}

-- The batched refill with its early exit is a saturating addition.
pub refill-min :
    (k : ℕ) (c : Channel)
    → c.held ≤ c.capacity
    → refill k c ≡ record c { held = min (c.held + k) c.capacity }
unfolding refill
refill-min zero c h = ground arith
refill-min (suc k) c h = elim (dec_lt c.held c.capacity) [
  | yes room ↦ ground (arith, refill-min k (record c { held = c.held + 1 }) (omega arith))
  | no full ↦ ground arith
]

abbrev pub ticks : List Step → ℕ
ticks [] = 0
ticks (tick ∷ ss) = suc (ticks ss)
ticks (receive ∷ ss) = ticks ss

abbrev pub receives : List Step → ℕ
receives [] = 0
receives (tick ∷ ss) = receives ss
receives (receive ∷ ss) = suc (receives ss)

step_tick :
    (per_tick : ℕ) (c : Channel)
    → c.held ≤ c.capacity
    → (c' : Channel) × (step per_tick tick c ≡ some c')
      × (c'.held ≤ c.held + per_tick)
      × (c'.held ≤ c.capacity)
      × (c'.capacity ≡ c.capacity)
unfolding step
step_tick k c h = (
  refill k c,
  refl,
  ground (arith, refill-min k c h),
  ground (arith, refill-min k c h),
  ground (arith, refill-min k c h),
)

-- Whatever the order of ticks and receives, all that was received and all that is left came from the
-- tokens at the start and from the ticks, and the bucket never holds more than its capacity.
pub run-conserves :
    (per_tick : ℕ) (ss : List Step) (c c' : Channel)
    → c.held ≤ c.capacity
    → run per_tick ss c ≡ some c'
    → (receives ss + c'.held ≤ c.held + ticks ss * per_tick)
      × (c'.held ≤ c'.capacity)
      × (c'.capacity ≡ c.capacity)
unfolding run
run-conserves k [] c c' h e = ground arith
run-conserves k (tick ∷ ss) c c' h e =
    let (m, em, more, le, cap) = step_tick k c h in
    let r : run k ss m ≡ some c' = rw (em, run) at e in
    omega (arith, run-conserves k ss m c' (omega arith) r)
run-conserves k (receive ∷ ss) c c' h e = elim (dec_lt 0 c.held) [
  | yes token ↦
      let m = record c { held = c.held - 1 } in
      let em : step k receive c ≡ some m = unfold step in ground arith in
      let r : run k ss m ≡ some c' = rw (em, run) at e in
      omega (arith, run-conserves k ss m c' (omega arith) r)
  | no empty ↦
      let em : step k receive c ≡ none = unfold step in ground arith in
      let r : none ≡ some c' = rw (em, run) at e in absurd (cc)
]

pub ticks_in_window : (w m t : ℕ) → 0 < m → m ≤ w / m → t * (w / m) < w → t ≤ m
ticks_in_window w m t p h lt = elim (dec_lt m t) [
  | yes more ↦ absurd (grind (arith, div-add-mod w m, mod-lt w p))
  | no few ↦ omega arith
]

-- The limit per window. Take a window of `w` ns, single tokens at the interval `w / m` that the setup
-- computes, and `m` at most that interval. If the first and the last tick of a run lie less than `w`
-- apart at this interval, at most `capacity + m + 1` calls got a token during the run.
pub receives_in_window :
    (w m : ℕ) (ss : List Step) (c c' : Channel)
    → 0 < m
    → m ≤ w / m
    → c.held ≤ c.capacity
    → run 1 ss c ≡ some c'
    → (ticks ss - 1) * (w / m) < w
    → receives ss ≤ c.capacity + m + 1
receives_in_window w m ss c c' p h full e lt =
    omega (arith, run-conserves 1 ss c c' full e, ticks_in_window w m (ticks ss - 1) p h lt)
