-- ===== src/Wheel.antt =====
-- pkg/metrics_state.go, `bucketWheel`: events counted per second on a wheel of `wheel_seconds` buckets.
-- A bucket is an int32 and a count an int64, both as two's complement words. A second is a Unix
-- second since 1970.
pub mod Buckets
pub mod Counts
pub mod Recent
use circuit_breaker.Base.{
  ℕ, zero, suc, ◌+◌, ◌-◌, ◌%◌, ◌^◌, List, if◌then◌else◌, leb, ltb, ◌==◌, ◌&&◌, get_or, set,
  replicate, Bool,
}
use circuit_breaker.Base.Words.{add64}

abbrev pub wheel_seconds : ℕ
wheel_seconds = 600

pub record Wheel : Type 0 where
  pub buckets : List ℕ
  pub last_sec : ℕ

abbrev pub new_wheel : Wheel
new_wheel = record { buckets = replicate wheel_seconds 0; last_sec = 0 }

-- `for s := from; …; s++ { w.buckets[s%wheelSeconds] = 0 }`, `k` rounds.
pub clear_from : ℕ → ℕ → List ℕ → List ℕ
clear_from s zero bs = bs
clear_from s (suc k) bs = clear_from (s + 1) k (set bs (s % wheel_seconds) 0)

unfoldable pub advance : ℕ → Wheel → Wheel
unfolding clear_from
advance sec w =
    if w.last_sec == 0
    then record w { last_sec = sec }
    else if leb sec w.last_sec
    then w
    else let gap = sec - w.last_sec in
      record {
        buckets =
            if leb wheel_seconds gap
            then replicate wheel_seconds 0
            else clear_from (w.last_sec + 1) gap w.buckets;
        last_sec = sec;
      }

-- `w.buckets[sec%wheelSeconds]++`
pub increment : ℕ → List ℕ → List ℕ
increment sec bs = let i = sec % wheel_seconds in set bs i ((get_or bs i 0 + 1) % 2 ^ 32)

unfoldable pub record_at : ℕ → Wheel → Wheel
unfolding advance increment
record_at sec w =
    let w' = advance sec w in
    if sec == w'.last_sec
    then record w' { buckets = increment sec w'.buckets }
    else if ltb sec w'.last_sec && ltb (w'.last_sec - sec) wheel_seconds
    then record w' { buckets = increment sec w'.buckets }
    else w'

-- `int64(b)` for an int32 `b`.
abbrev pub extend32 : ℕ → ℕ
extend32 b = if ltb b (2 ^ 31) then b else b + (2 ^ 64 - 2 ^ 32)

-- `for s := sec - seconds + 1; s <= sec; s++ { if s > 0 { n += int64(w.buckets[s%wheelSeconds]) } }`
-- with `t = s + seconds`, so that the second before 1970 that `s` may be is written without a sign.
pub count_from : ℕ → ℕ → List ℕ → ℕ → ℕ → ℕ
count_from seconds t bs zero n = n
count_from seconds t bs (suc k) n =
    count_from seconds (t + 1) bs k (
      if ltb seconds t then add64 n (extend32 (get_or bs ((t - seconds) % wheel_seconds) 0)) else n)

unfoldable pub count_last : ℕ → ℕ → Wheel → ℕ × Wheel
unfolding advance count_from
count_last sec seconds w =
    let w' = advance sec w in (count_from seconds (sec + 1) w'.buckets seconds 0, w')
