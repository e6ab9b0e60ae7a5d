-- ===== src/Options.antt =====
-- pkg/options.go: the options, the constructor that applies them, and the backoff between attempts.
-- `time.Duration` is a number of nanoseconds in an int64.
pub mod Backoff
use Prim.Native.String.{String}
use circuit_breaker.Base.{
  ℕ, zero, suc, ◌+◌, ◌*◌, ◌/◌, Bool, true, false, ◌||◌, ◌&&◌, Option, none, some, List, [], ◌∷◌,
  if◌then◌else◌,
}
use circuit_breaker.Base.Int.{ℤ, pos, negsuc, ◌*ℤ◌, ◌+ℤ◌, ltb_ℤ, leb_ℤ}
use circuit_breaker.Base.Words.{int64}
use circuit_breaker.Float.{Float}
use circuit_breaker.Errors.{Err}
use circuit_breaker.Breaker.{new_breaker_state}
use circuit_breaker.Circuit.{Circuit, ExpBackoff, new_circuit, init_token_bucket, size_of}

-- `type Option func(*circuitBreaker)`; the `none` of a list of options is a nil option.
abbrev pub Setting : Type 0
Setting = Circuit → Circuit

unfoldable pub with_breaker : ℤ → ℤ → ℤ → ℤ → Setting
with_breaker zero_time failures open_for half_open_probes cb = record cb {
  state = some (new_breaker_state zero_time failures open_for half_open_probes);
}

unfoldable pub with_status_code_failure : ℤ → Setting
with_status_code_failure min cb = record cb { status_fail_min = min }

unfoldable pub with_retry_policy : Option (Err → Bool) → Setting
with_retry_policy fn cb = record cb { retry_policy = fn }

unfoldable pub with_exponential_backoff : ℤ → ℤ → Bool → Setting
with_exponential_backoff base max jitter cb =
    let base' = if leb_ℤ base (pos 0) then pos 100_000_000 else base in
    let max' = if ltb_ℤ max base' then base' else max in
    record cb { exp_backoff = some (record { base = base'; max = max'; jitter = jitter }) }

unfoldable pub with_burst : ℤ → Setting
with_burst n cb = record cb { burst = if ltb_ℤ n (pos 1) then pos 1 else n }

unfoldable pub with_retry_after : ℤ → Setting
with_retry_after max_wait cb = record cb {
  retry_after_max = if leb_ℤ max_wait (pos 0) then pos 300_000_000_000 else max_wait;
}

unfoldable pub with_default_timeout : ℤ → Setting
with_default_timeout d cb = record cb { default_timeout = d }

unfoldable pub apply_settings : List (Option Setting) → Circuit → Circuit
apply_settings [] cb = cb
apply_settings (none ∷ opts) cb = apply_settings opts cb
apply_settings (some opt ∷ opts) cb = apply_settings opts (opt cb)

unfoldable pub new_circuit_breaker_with_options :
    {F : Type 0} → Float F → String → ℤ → ℤ → ℤ → ℤ → List (Option Setting) → Circuit
unfolding apply_settings
new_circuit_breaker_with_options fl name max_concurrent max_requests window_seconds max_retries
      opts =
    init_token_bucket fl (
      apply_settings opts (new_circuit name max_concurrent max_requests window_seconds max_retries))

-- `for i := 0; i < attempt && d < max; i++ { d *= 2 }`, `k` rounds at most; `*=` wraps.
unfoldable pub double_until : ℤ → ℕ → ℤ → ℤ
double_until max zero d = d
double_until max (suc k) d =
    let rest = double_until max k (int64 (d *ℤ pos 2)) in if ltb_ℤ d max then rest else d

-- `d/2 + rand.N(d/2)` for d > 1; `draw n` stands for `rand.N(n)`.
pub jittered : (ℕ → ℕ) → ℤ → ℤ
jittered draw d = let half = size_of d / 2 in pos (half + draw half)

unfoldable pub backoff_for : (ℕ → ℕ) → Circuit → ℕ → ℤ
unfolding jittered
backoff_for draw cb attempt = elim cb.exp_backoff [
  | none ↦ cb.backoff
  | some e ↦
      let doubled = double_until e.max attempt e.base in
      let d = if leb_ℤ doubled (pos 0) || ltb_ℤ e.max doubled then e.max else doubled in
      if e.jitter && ltb_ℤ (pos 1) d then jittered draw d else d
]
