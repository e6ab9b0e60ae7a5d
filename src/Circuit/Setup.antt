-- ===== src/Circuit/Setup.antt =====
-- What `initTokenBucket` sets up, whatever float64 arithmetic gives for the size of a batch.
use circuit_breaker.Base.{ℕ, ◌*◌, ◌/◌, ◌^◌, ◌≤◌, ◌<◌, ◌≡◌, refl, some, arith, true, false, ◌⊎◌}
use Prim.Native.Nat.{min}
use circuit_breaker.Base.Int.{ℤ, pos, negsuc, ◌*ℤ◌, ◌≤ℤ◌, ◌<ℤ◌}
use circuit_breaker.Base.Words.{int64, int64_exact}
use circuit_breaker.Float.{Float}
use circuit_breaker.Circuit.{
  Circuit, nominal_interval, bucket_capacity, lot, init_token_bucket, min_token_interval,
  max_bucket_capacity, size_of, second,
}

window_int64 :
    (s : ℕ) → s * 1_000_000_000 < 2 ^ 63 → int64 (pos s *ℤ second) ≡ pos (s * 1_000_000_000)
unfolding ◌*ℤ◌
window_int64 s h =
    let e : pos s *ℤ second ≡ pos (s * 1_000_000_000) = ground arith in
    rw e (int64_exact (pos (s * 1_000_000_000)) (omega arith))

nominal_interval_lem :
    (m s : ℕ) (cb : Circuit)
    → cb.max_requests ≡ pos m
    → cb.window_seconds ≡ pos s
    → s * 1_000_000_000 < 2 ^ 63
    → nominal_interval cb ≡ pos (s * 1_000_000_000 / m)
unfolding nominal_interval
nominal_interval_lem m s cb em es h = rw (em, es, window_int64 s h)

lot_bounds :
    {F : Type 0} (fl : Float F) (cb : Circuit) (capacity : ℤ)
    → pos 1 ≤ℤ capacity
    → (pos 1 ≤ℤ lot fl cb capacity) × (lot fl cb capacity ≤ℤ capacity)
unfolding lot
lot_bounds fl cb capacity h = (ground arith, ground arith)

bucket_capacity_lem :
    (m : ℕ) (cb : Circuit)
    → cb.max_requests ≡ pos m
    → 0 < m
    → (pos 1 ≤ℤ bucket_capacity cb)
      × (bucket_capacity cb ≤ℤ max_bucket_capacity)
      × (cb.burst ≤ℤ pos 0 → bucket_capacity cb ≡ pos (min m 1_000_000))
      × (pos 0 <ℤ cb.burst → cb.burst ≤ℤ max_bucket_capacity → bucket_capacity cb ≡ cb.burst)
unfolding bucket_capacity
bucket_capacity_lem m cb e p = (ground arith, ground arith, λ h. ground arith, λ h h'. ground arith)

-- A bucket that is full and refilled: its size lies between 1 and a million and is the burst if one
-- is set, else `max_requests`, up to that ceiling; a tick comes at most every millisecond and adds at
-- least one token and no more than the bucket holds; if the nominal interval is a millisecond or more,
-- it is the interval of single tokens, and rounding only shortens it. The other fields are as before.
pub record IsReady (m s : ℕ) (cb ready : Circuit) : Type 0 where
  pub capacity : ℕ
  pub full : ready.tokens ≡ some (record { capacity = capacity; held = capacity })
  pub some_room : (1 ≤ capacity) × (capacity ≤ 1_000_000)
  pub without_burst : cb.burst ≤ℤ pos 0 → capacity ≡ min m 1_000_000
  pub with_burst : pos 0 <ℤ cb.burst → cb.burst ≤ℤ max_bucket_capacity → pos capacity ≡ cb.burst
  pub refilled : (ready.refilling ≡ true) × (ready.token_stop ≡ some false)
  pub slow : min_token_interval ≤ℤ ready.token_interval
  pub batch : (pos 1 ≤ℤ ready.tokens_per_tick) × (ready.tokens_per_tick ≤ℤ pos capacity)
  pub single :
      1_000_000 ≤ s * 1_000_000_000 / m
      → (ready.tokens_per_tick ≡ pos 1) × (ready.token_interval ≡ pos (s * 1_000_000_000 / m))
  pub kept : ready ≡ record cb {
    tokens = ready.tokens;
    token_interval = ready.token_interval;
    tokens_per_tick = ready.tokens_per_tick;
    token_stop = ready.token_stop;
    refilling = ready.refilling;
  }

size_of_pos : (z : ℤ) → pos 1 ≤ℤ z → z ≡ pos (size_of z)
size_of_pos (pos n) h = refl
size_of_pos (negsuc n) h = absurd (omega arith)

-- For positive parameters whose window fits an int64 of nanoseconds, `initTokenBucket` sets up a
-- working bucket, for any float64 arithmetic.
pub init_token_bucket-IsReady :
    {F : Type 0} (fl : Float F) (m s : ℕ) (cb : Circuit)
    → cb.max_requests ≡ pos m
    → cb.window_seconds ≡ pos s
    → 0 < m
    → 0 < s
    → s * 1_000_000_000 < 2 ^ 63
    → IsReady m s cb (init_token_bucket fl cb)
unfolding init_token_bucket
init_token_bucket-IsReady fl m s cb em es pm ps h =
    let n = nominal_interval_lem m s cb em es h in
    let (least, most, plain, bursty) = bucket_capacity_lem m cb em pm in
    let l = lot_bounds fl cb (bucket_capacity cb) least in
    let e = size_of_pos (bucket_capacity cb) least in
    record {
      capacity = size_of (bucket_capacity cb);
      full = ground arith;
      some_room = ground (arith, e);
      without_burst = λ q. ground (arith, plain q, e);
      with_burst = λ q q'. ground (arith, bursty q q', e);
      refilled = ground (arith, n);
      slow = ground (arith, n);
      batch = ground (arith, n, l, e);
      single = λ q. ground (arith, n);
      kept = ground (arith, n);
    }

-- Without a positive number of requests and a positive window there is no bucket: nothing changes.
pub init_token_bucket_off :
    {F : Type 0} (fl : Float F) (cb : Circuit)
    → (cb.max_requests ≤ℤ pos 0) ⊎ (cb.window_seconds ≤ℤ pos 0)
    → init_token_bucket fl cb ≡ cb
unfolding init_token_bucket
init_token_bucket_off fl cb h = ground arith
