-- ===== src/Wheel/Recent.antt =====
-- `countLast` against the plain list of the seconds of all events ever recorded.
use circuit_breaker.Base.{
  ℕ, zero, suc, ◌+◌, ◌-◌, ◌^◌, ◌≤◌, ◌<◌, ◌≡◌, refl, List, [], ◌∷◌, arith, length, dec_lt, leb, ltb,
  ◌==◌, ◌&&◌, if◌then◌else◌,
}
use circuit_breaker.Wheel.{
  Wheel, new_wheel, wheel_seconds, record_at, count_from, count_last, advance,
}
use circuit_breaker.Wheel.Counts.{
  Counts, count_at, new_wheel-Counts, record_at-Counts, advance-Counts, last_sec-advance,
}

-- The events of the last `seconds` seconds up to and with `sec`.
abbrev pub recent : ℕ → ℕ → List ℕ → ℕ
recent sec seconds [] = 0
recent sec seconds (e ∷ log) =
    let rest = recent sec seconds log in
    if leb e sec && ltb sec (e + seconds) then suc rest else rest

-- The events `e` with `e + seconds` among the `k` numbers from `t` on, and those at `t` itself.
abbrev hits : ℕ → ℕ → ℕ → List ℕ → ℕ
hits seconds t k [] = 0
hits seconds t k (e ∷ log) =
    let rest = hits seconds t k log in
    if leb t (e + seconds) && ltb (e + seconds) (t + k) then suc rest else rest

abbrev hits_at : ℕ → ℕ → List ℕ → ℕ
hits_at seconds t [] = 0
hits_at seconds t (e ∷ log) =
    let rest = hits_at seconds t log in if (e + seconds) == t then suc rest else rest

hits-zero : (seconds t : ℕ) (log : List ℕ) → hits seconds t 0 log ≡ 0
hits-zero seconds t [] = refl
hits-zero seconds t (e ∷ log) = ground (arith, hits-zero seconds t log)

hits-suc :
    (seconds t k : ℕ) (log : List ℕ)
    → hits seconds t (suc k) log ≡ hits_at seconds t log + hits seconds (t + 1) k log
hits-suc seconds t k [] = refl
hits-suc seconds t k (e ∷ log) = ground (arith, hits-suc seconds t k log)

hits_at-count_at :
    (seconds t : ℕ) (log : List ℕ)
    → seconds < t
    → hits_at seconds t log ≡ count_at (t - seconds) log
hits_at-count_at seconds t [] h = refl
hits_at-count_at seconds t (e ∷ log) h = ground (arith, hits_at-count_at seconds t log h)

hits_at-zero :
    (seconds t : ℕ) (log : List ℕ) → t ≤ seconds → count_at 0 log ≡ 0 → hits_at seconds t log ≡ 0
hits_at-zero seconds t [] h z = refl
hits_at-zero seconds t (e ∷ log) h z = ground (arith, hits_at-zero seconds t log h)

hits-recent :
    (seconds sec : ℕ) (log : List ℕ) → hits seconds (sec + 1) seconds log ≡ recent sec seconds log
hits-recent seconds sec [] = refl
hits-recent seconds sec (e ∷ log) = ground (arith, hits-recent seconds sec log)

hits-le : (seconds t k : ℕ) (log : List ℕ) → hits seconds t k log ≤ length log
hits-le seconds t k [] = omega arith
hits-le seconds t k (e ∷ log) = ground (arith, hits-le seconds t k log)

count_at-le : (s : ℕ) (log : List ℕ) → count_at s log ≤ length log
count_at-le s [] = omega arith
count_at-le s (e ∷ log) = ground (arith, count_at-le s log)

count_from-hits :
    (seconds t k n : ℕ) (w : Wheel) (log : List ℕ)
    → Counts w log
    → length log < 2 ^ 31
    → t + k ≤ w.last_sec + seconds + 1
    → w.last_sec + seconds < t + wheel_seconds
    → n + hits seconds t k log < 2 ^ 64
    → count_from seconds t w.buckets k n ≡ n + hits seconds t k log
unfolding count_from
count_from-hits seconds t zero n w log c few hi lo fits = omega (arith, hits-zero seconds t log)
count_from-hits seconds t (suc k) n w log c few hi lo fits = elim (dec_lt seconds t) [
  | yes after_1970 ↦ ground (
    arith,
    c.window (t - seconds) (omega arith) (omega arith),
    count_at-le (t - seconds) log,
    hits-suc seconds t k log,
    hits_at-count_at seconds t log after_1970,
    count_from-hits seconds (t + 1) k (n + hits_at seconds t log) w log c few (omega arith)
        (omega arith) (omega (arith, hits-suc seconds t k log)),
  )
  | no before ↦ ground (
    arith,
    hits-suc seconds t k log,
    hits_at-zero seconds t log (omega arith) c.positive,
    count_from-hits seconds (t + 1) k n w log c few (omega arith) (omega arith)
        (omega (arith, hits-suc seconds t k log)),
  )
]

pub count_last-Counts :
    (sec seconds : ℕ) (w : Wheel) (log : List ℕ)
    → Counts w log
    → length log < 2 ^ 31
    → seconds ≤ wheel_seconds
    → w.last_sec + seconds ≤ sec + wheel_seconds
    → (count_last sec seconds w).0 ≡ recent sec seconds log
unfolding count_last
count_last-Counts sec seconds w log c few le behind = omega (
  arith,
  count_from-hits seconds (sec + 1) seconds 0 (advance sec w) log (advance-Counts sec w log c) few
      (omega (arith, last_sec-advance sec w)) (omega (arith, last_sec-advance sec w))
      (omega (arith, hits-le seconds (sec + 1) seconds log)),
  hits-recent seconds sec log,
)

-- The wheel after the events of a list, the last of the list first.
unfoldable pub wheel_of : List ℕ → Wheel
wheel_of [] = new_wheel
wheel_of (e ∷ log) = record_at e (wheel_of log)

abbrev pub AllPositive : List ℕ → Type 0
AllPositive [] = Unit
AllPositive (e ∷ log) = (0 < e) × AllPositive log

wheel_of-Counts : (log : List ℕ) → AllPositive log → Counts (wheel_of log) log
unfolding wheel_of
wheel_of-Counts [] p = new_wheel-Counts
wheel_of-Counts (e ∷ log) p = record_at-Counts e (wheel_of log) log p.0 (wheel_of-Counts log p.1)

-- The wheel counts exactly. Record fewer than 2 ^ 31 events, with Unix seconds above 0 and in any
-- order. Then the count over the last `seconds` seconds, 600 at most, is the number of recorded
-- events in these seconds, provided that the clock is not behind the wheel by more than
-- `600 - seconds` seconds.
pub count_last-recent :
    (sec seconds : ℕ) (log : List ℕ)
    → AllPositive log
    → length log < 2 ^ 31
    → seconds ≤ wheel_seconds
    → (wheel_of log).last_sec + seconds ≤ sec + wheel_seconds
    → (count_last sec seconds (wheel_of log)).0 ≡ recent sec seconds log
count_last-recent sec seconds log p few le behind =
    count_last-Counts sec seconds (wheel_of log) log (wheel_of-Counts log p) few le behind
