-- ===== src/Circuit.antt =====
-- pkg/circuitbreaker.go: the struct `circuitBreaker`, its constructor, and the token bucket's setup and
-- refill. A channel of empty structs is its capacity and the number of values in it; `none` is a nil
-- channel. `refilling` says that the goroutine of the token bucket was started.
pub mod Setup
use Prim.Native.String.{String}
use circuit_breaker.Base.{
  ℕ, zero, suc, ◌+◌, ◌-◌, ◌/◌, ◌%◌, ◌^◌, Bool, true, false, ◌||◌, ◌&&◌, Option, none, some, List,
  [], if◌then◌else◌, ltb,
}
use circuit_breaker.Base.Int.{ℤ, pos, negsuc, ◌*ℤ◌, ltb_ℤ, leb_ℤ}
use circuit_breaker.Base.Words.{int64}
use circuit_breaker.Float.{Float}
use circuit_breaker.Errors.{Err}
use circuit_breaker.Breaker.{Breaker}

pub record Channel : Type 0 where
  pub capacity : ℕ
  pub held : ℕ

pub record ExpBackoff : Type 0 where
  pub base : ℤ
  pub max : ℤ
  pub jitter : Bool

pub record Circuit : Type 0 where
  pub name : String
  pub max_concurrent : ℤ
  pub max_retries : ℤ
  pub sem : Option Channel
  pub tokens : Option Channel
  pub token_interval : ℤ
  pub tokens_per_tick : ℤ
  pub token_stop : Option Bool  -- a channel that is closed, or not
  pub refilling : Bool
  pub backoff : ℤ
  pub state : Option Breaker
  pub status_fail_min : ℤ
  pub retry_policy : Option (Err → Bool)
  pub exp_backoff : Option ExpBackoff
  pub default_timeout : ℤ
  pub max_requests : ℤ
  pub window_seconds : ℤ
  pub burst : ℤ
  pub retry_after_max : ℤ
  pub retry_after_until : ℤ

abbrev pub millisecond : ℤ
millisecond = pos 1_000_000

abbrev pub second : ℤ
second = pos 1_000_000_000

abbrev pub min_token_interval : ℤ
min_token_interval = millisecond

abbrev pub clamped_tick : ℤ
clamped_tick = pos 25_000_000

abbrev pub max_bucket_capacity : ℤ
max_bucket_capacity = pos 1_000_000

-- `make(chan struct{}, n)` for a positive `n`.
abbrev pub size_of : ℤ → ℕ
size_of (pos n) = n
size_of (negsuc n) = 0

unfoldable pub new_circuit : String → ℤ → ℤ → ℤ → ℤ → Circuit
new_circuit name max_concurrent max_requests window_seconds max_retries = record {
  name = name;
  max_concurrent = max_concurrent;
  max_retries = max_retries;
  sem =
      if ltb_ℤ (pos 0) max_concurrent
      then some (record { capacity = size_of max_concurrent; held = 0 })
      else none;
  tokens = none;
  token_interval = pos 0;
  tokens_per_tick = pos 0;
  token_stop = none;
  refilling = false;
  backoff = pos 500_000_000;
  state = none;
  status_fail_min = pos 0;
  retry_policy = none;
  exp_backoff = none;
  default_timeout = pos 0;
  max_requests = max_requests;
  window_seconds = window_seconds;
  burst = pos 0;
  retry_after_max = pos 0;
  retry_after_until = pos 0;
}

-- Go's `/` by a positive divisor: towards zero.
unfoldable pub quot : ℤ → ℤ → ℤ
quot (pos n) d = pos (n / size_of d)
quot (negsuc n) d = elim (suc n / size_of d) [ zero ↦ pos 0 | suc q ↦ negsuc q ]

unfoldable pub bucket_capacity : Circuit → ℤ
bucket_capacity cb =
    let wanted = if ltb_ℤ (pos 0) cb.burst then cb.burst else cb.max_requests in
    if ltb_ℤ max_bucket_capacity wanted then max_bucket_capacity else wanted

-- The interval between tokens before it is clamped, in int64 arithmetic.
unfoldable pub nominal_interval : Circuit → ℤ
unfolding quot
nominal_interval cb = quot (int64 (cb.window_seconds *ℤ second)) cb.max_requests

-- The goroutine is started when there are a bucket, a stop channel and a positive interval.
pub start_token_bucket : Circuit → Circuit
start_token_bucket cb = elim cb.tokens [
  | none ↦ cb
  | some _ ↦ elim cb.token_stop [
    | none ↦ cb
    | some _ ↦ if leb_ℤ cb.token_interval (pos 0) then cb else record cb { refilling = true }
  ]
]

module _ {F : Type 0} (fl : Float F) where
  -- `int(math.Round(perSecond * clampedTick.Seconds()))`, kept between 1 and the capacity.
  unfoldable pub lot : Circuit → ℤ → ℤ
  lot cb capacity =
      let per_second = fl.div (fl.of_int cb.max_requests) (fl.of_int cb.window_seconds) in
      let rounded = fl.round_int (fl.mul per_second (fl.seconds clamped_tick)) in
      let some_tokens = if ltb_ℤ rounded (pos 1) then pos 1 else rounded in
      if ltb_ℤ capacity some_tokens then capacity else some_tokens

  unfoldable pub init_token_bucket : Circuit → Circuit
  unfolding start_token_bucket
  init_token_bucket cb =
      if leb_ℤ cb.max_requests (pos 0) || leb_ℤ cb.window_seconds (pos 0)
      then cb
      else let capacity = bucket_capacity cb in
        let interval = nominal_interval cb in
        let clamped = ltb_ℤ interval min_token_interval in
        start_token_bucket (record cb {
          tokens = some (record { capacity = size_of capacity; held = size_of capacity });
          tokens_per_tick = if clamped then lot cb capacity else pos 1;
          token_interval = if clamped then clamped_tick else interval;
          token_stop = some false;
        })

  unfoldable pub new_circuit_breaker : String → ℤ → ℤ → ℤ → ℤ → Circuit
  unfolding new_circuit init_token_bucket
  new_circuit_breaker name max_concurrent max_requests window_seconds max_retries =
      init_token_bucket (new_circuit name max_concurrent max_requests window_seconds max_retries)

-- `refill: for range cb.tokensPerTick { select { case cb.tokens <- struct{}{}: default: break
-- refill } }`
unfoldable pub refill : ℕ → Channel → Channel
refill zero c = c
refill (suc k) c =
    let rest = refill k (record c { held = c.held + 1 }) in
    if ltb c.held c.capacity then rest else c

-- `Stop`: the first call closes the channel, which ends the goroutine, and waits for it.
unfoldable pub stop : Circuit → Circuit
stop cb = elim cb.token_stop [
  | none ↦ cb
  | some _ ↦ record cb { token_stop = some true; refilling = false }
]
