-- ===== src/Breaker/Gatekeeping.antt =====
-- When `allow` of pkg/state.go lets a call through.
use circuit_breaker.Base.{◌≡◌, refl, ◌⊎◌, ◌↔◌, ◌≢◌, true, none, some, arith}
use circuit_breaker.Base.Int.{ℤ, pos, ◌+ℤ◌, ◌≤ℤ◌, ◌<ℤ◌}
use circuit_breaker.Base.Words.{max_int64, sub_time, sub_time_lt, sub_time_ge}
use circuit_breaker.Errors.{circuit_open}
use circuit_breaker.Breaker.{
  state_open, state_half_open, outcome_failure, Breaker, new_breaker_state, allow, report,
}

-- What the constructor establishes and no operation changes.
pub record IsConfigured (b : Breaker) : Type 0 where
  pub some_threshold : pos 1 ≤ℤ b.threshold
  pub some_wait : pos 0 <ℤ b.open_for
  pub wait_fits : b.open_for ≤ℤ max_int64
  pub some_probes : pos 1 ≤ℤ b.max_probes

-- Whatever the arguments, the sanitised parameters are usable, and usable ones are kept.
pub new_breaker_state-IsConfigured :
    (zero_time threshold open_for max_probes : ℤ)
    → open_for ≤ℤ max_int64
    → IsConfigured (new_breaker_state zero_time threshold open_for max_probes)
unfolding new_breaker_state
new_breaker_state-IsConfigured z t o m h = ground arith

-- The calls that must fail fast: the circuit is open and `open_for` has not passed, or all probes
-- of a half-open circuit are out and `open_for` has not passed since it became half-open.
abbrev pub FailsFast : ℤ → Breaker → Type 0
FailsFast now b =
    ((b.cur ≡ state_open) × (sub_time now b.opened_at <ℤ b.open_for))
    ⊎ ((b.cur ≡ state_half_open)
        × (b.max_probes ≤ℤ b.probes)
        × (sub_time now b.half_open_at <ℤ b.open_for))

-- `allow` refuses exactly the calls that must fail fast, always with ErrCircuitOpen, and a refusal
-- changes nothing.
pub allow_refuses_iff :
    (now : ℤ) (b : Breaker)
    → IsConfigured b
    → (((allow now b).0.error ≢ none) ↔ FailsFast now b)
      × ((allow now b).0.error ≢ none → (allow now b).0.error ≡ some circuit_open)
      × ((allow now b).0.error ≢ none → (allow now b).1 ≡ b)
unfolding allow
allow_refuses_iff now b c =
    ((λ h. ground arith, λ h. ground arith), λ h. ground arith, λ h. ground arith)

-- No state locks callers out: once `open_for` has passed since the circuit opened and since it last
-- became half-open, the next call is admitted, as a probe unless the circuit is closed.
pub allow-admits_after :
    (now : ℤ) (b : Breaker)
    → IsConfigured b
    → b.opened_at +ℤ b.open_for ≤ℤ now
    → b.half_open_at +ℤ b.open_for ≤ℤ now
    → ((allow now b).0.error ≡ none)
      × ((b.cur ≡ state_open) ⊎ (b.cur ≡ state_half_open)
          → ((allow now b).0.probe ≡ true)
            × ((allow now b).1.cur ≡ state_half_open)
            × ((allow now b).0.gen ≡ (allow now b).1.gen))
unfolding allow
allow-admits_after now b c ho hh =
    let p = sub_time_ge now b.opened_at b.open_for (ground (arith, c)) c.wait_fits ho in
    let q = sub_time_ge now b.half_open_at b.open_for (ground (arith, c)) c.wait_fits hh in
    (ground (arith, p, q), λ h. (ground (arith, p, q), ground (arith, p, q), ground (arith, p, q)))

one_probe : pos 0 +ℤ pos 1 ≡ pos 1
unfolding ◌+ℤ◌
one_probe = refl

-- A probe that fails at time `at` opens the circuit again: every call is refused until `open_for`
-- has passed, and the first call after that is a probe of a new generation.
pub reopened_refuses :
    (at now : ℤ) (b : Breaker)
    → IsConfigured b
    → b.cur ≡ state_half_open
    → let b' = report true b.gen at outcome_failure b in
      (b'.cur ≡ state_open)
      × (now <ℤ at +ℤ b.open_for
          → ((allow now b').0.error ≡ some circuit_open) × ((allow now b').1 ≡ b'))
      × (at +ℤ b.open_for ≤ℤ now
          → ((allow now b').0.error ≡ none)
            × ((allow now b').0.probe ≡ true)
            × ((allow now b').1.cur ≡ state_half_open)
            × ((allow now b').1.probes ≡ pos 1))
unfolding allow report
reopened_refuses at now b c e = (
  ground arith,
  λ h.
      let p = sub_time_lt now at b.open_for (ground (arith, c)) c.wait_fits h in
      (ground (arith, p), ground (arith, p)),
  λ h.
      let p = sub_time_ge now at b.open_for (ground (arith, c)) c.wait_fits h in
      (ground (arith, p), ground (arith, p), ground (arith, p), ground (arith, p, one_probe)),
)
