-- ===== src/RetryAfter/Gate.antt =====
-- The global gate: it only rises, and no call passes it early.
use circuit_breaker.Base.{
  ◌≡◌, List, [], ◌∷◌, some, none, arith, if◌then◌else◌, ◌↔◌, Bool-cases, inl, inr, true, false,
}
use circuit_breaker.Base.Int.{ℤ, pos, ◌≤ℤ◌, ◌<ℤ◌, ltb_ℤ, leb_ℤ, +ℤ_parts}
use circuit_breaker.Base.Words.{sub_time, sub_time_lt, sub_time_ge}
use circuit_breaker.RetryAfter.{extend_gate, Round, elapsed, wait_gate_loop, wait_retry_after_gate}

-- The values that other goroutines leave in the gate: each write raises it.
abbrev pub IsRising : ℤ → List ℤ → Type 0
IsRising cur [] = Unit
IsRising cur (c ∷ found) = (cur ≤ℤ c) × IsRising c found

-- While others only raise the gate, `extendRetryAfterGate(n)` returns with a gate that is at `n` or
-- above it and not below the value that it first loaded, however often others come first; with nobody
-- else writing it is the larger of the two.
pub extend_gate_raises :
    (n cur : ℤ) (found : List ℤ)
    → IsRising cur found
    → (n ≤ℤ extend_gate n cur found)
      × (cur ≤ℤ extend_gate n cur found)
      × (found ≡ [] → extend_gate n cur found ≡ (if ltb_ℤ cur n then n else cur))
unfolding extend_gate
extend_gate_raises n cur [] r = (ground arith, ground arith, λ e. ground arith)
extend_gate_raises n cur (c ∷ found) r =
    let ih = extend_gate_raises n c found r.1 in
    (ground (arith, ih.0), ground (arith, ih.1), λ e. absurd (cc))

-- A wait that ends well: each round found the gate closed and slept until the time it had read, up
-- to a round that found the gate at or below the clock.
pub data Passes : List Round → Type 0 where
  now_open : {r : Round} {rs : List Round} → r.gate ≤ℤ r.now → Passes (r ∷ rs)
  sleep :
      {r : Round} {rs : List Round}
      → r.now <ℤ r.gate
      → r.wake ≡ elapsed
      → Passes rs
      → Passes (r ∷ rs)

until_open : (g t : ℤ) → g ≤ℤ t → leb_ℤ (sub_time g t) (pos 0) ≡ true
until_open g t h =
    let l =
      sub_time_lt g t (pos 1) (omega arith) (omega arith) (omega (arith, +ℤ_parts t (pos 1))) in
    ground (arith, l)

until_closed : (g t : ℤ) → t <ℤ g → leb_ℤ (sub_time g t) (pos 0) ≡ false
until_closed g t h =
    let l =
      sub_time_ge g t (pos 1) (omega arith) (omega arith) (omega (arith, +ℤ_parts t (pos 1))) in
    ground (arith, l)

loop-Passes : (rs : List Round) → wait_gate_loop rs ≡ some none → Passes rs
unfolding wait_gate_loop
loop-Passes [] e = absurd (cc)
loop-Passes (r ∷ rs) e = elim (Bool-cases (leb_ℤ r.gate r.now)) [
  | inl opened ↦ now_open (ground arith)
  | inr closed ↦
      let c = until_closed r.gate r.now (ground arith) in
      sleep (ground arith) (ground (arith, c)) (loop-Passes rs (ground (arith, c)))
]

Passes-loop : {rs : List Round} → Passes rs → wait_gate_loop rs ≡ some none
unfolding wait_gate_loop
Passes-loop (now_open {r} h) = ground (arith, until_open r.gate r.now h)
Passes-loop (sleep {r} h w p) = ground (arith, until_closed r.gate r.now h, Passes-loop p)

-- With Retry-After in use, a call passes the gate exactly when a round finds the gate, as it then is,
-- at or below the clock, after rounds that slept their time out: an extension of the gate during the
-- sleep is seen.
pub wait_retry_after_gate-Passes :
    (retry_after_max : ℤ) (rs : List Round)
    → pos 0 <ℤ retry_after_max
    → (wait_retry_after_gate retry_after_max rs ≡ some none) ↔ Passes rs
unfolding wait_retry_after_gate
wait_retry_after_gate-Passes m rs h =
    let e : leb_ℤ m (pos 0) ≡ false = ground arith in
    (λ q. loop-Passes rs (ground (arith, e)), λ p. ground (arith, e, Passes-loop p))
