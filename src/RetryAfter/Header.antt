-- ===== src/RetryAfter/Header.antt =====
-- What `parseRetryAfter` makes of a header.
use mathlib.Core.Path.{subst}
use Prim.Native.Nat.{min}
use circuit_breaker.Base.{
  ℕ, ◌-◌, ◌*◌, ◌^◌, ◌≤◌, ◌≡◌, List, [], ◌∷◌, some, none, Option, arith, leb, Bool-cases, inl, inr,
}
use circuit_breaker.Base.Int.{ℤ, pos, negsuc, ◌*ℤ◌, ◌≤ℤ◌}
use circuit_breaker.Base.Words.{int64, int64_exact, max_int64, sub_time-IsInt64}
use circuit_breaker.RetryAfter.{trim_space, atoi, seconds_delay, date_delay, parse_retry_after}

nanoseconds :
    (s : ℕ) → s ≤ 9_223_372_036 → int64 (pos s *ℤ pos 1_000_000_000) ≡ pos (s * 1_000_000_000)
unfolding ◌*ℤ◌
nanoseconds s h =
    let e : pos s *ℤ pos 1_000_000_000 ≡ pos (s * 1_000_000_000) = ground arith in
    rw e (int64_exact (pos (s * 1_000_000_000)) (omega arith))

-- Seconds become nanoseconds, saturated where they would overflow; a negative number is refused.
pub seconds_delay-pos :
    (s : ℕ) → seconds_delay (pos s) ≡ some (pos (min (s * 1_000_000_000) (2 ^ 63 - 1)))
unfolding seconds_delay
seconds_delay-pos s = elim (Bool-cases (leb s 9_223_372_036)) [
  | inl small ↦ ground (arith, nanoseconds s (ground arith))
  | inr large ↦ ground arith
]

seconds_delay-negsuc : (n : ℕ) → seconds_delay (negsuc n) ≡ none
unfolding seconds_delay
seconds_delay-negsuc n = ground arith

abbrev InRange : Option ℤ → Type 0
InRange none = Unit
InRange (some d) = (pos 0 ≤ℤ d) × (d ≤ℤ max_int64)

seconds_delay-InRange : (z : ℤ) → InRange (seconds_delay z)
seconds_delay-InRange (pos s) = rw (seconds_delay-pos s) (omega arith)
seconds_delay-InRange (negsuc n) = rw (seconds_delay-negsuc n) tt

date_delay-InRange : (now : ℤ) (t : Option ℤ) → InRange (date_delay now t)
unfolding date_delay
date_delay-InRange now none = tt
date_delay-InRange now (some t) = ground (arith, sub_time-IsInt64 t now)

parse_retry_after-InRange :
    (parse_time : List ℕ → Option ℤ) (h : List ℕ) (now : ℤ)
    → InRange (parse_retry_after parse_time h now)
unfolding parse_retry_after
parse_retry_after-InRange parse_time h now = go (trim_space h)
  where
    number :
        (c : ℕ) (cs : List ℕ) (r : Option ℤ)
        → InRange (elim r [
          | some secs ↦ seconds_delay secs
          | none ↦ date_delay now (parse_time (c ∷ cs))
        ])
    number c cs none = date_delay-InRange now (parse_time (c ∷ cs))
    number c cs (some secs) = seconds_delay-InRange secs

    go :
        (t : List ℕ)
        → InRange (elim t [
          | [] ↦ none
          | c ∷ cs ↦ elim (atoi (c ∷ cs)) [
            | some secs ↦ seconds_delay secs
            | none ↦ date_delay now (parse_time (c ∷ cs))
          ]
        ])
    go [] = tt
    go (c ∷ cs) = number c cs (atoi (c ∷ cs))

-- Whatever the header and the parser of dates, a delay that is accepted lies between 0 and the largest
-- int64: no header makes it wrap to a negative number.
pub parse_retry_after_bounds :
    (parse_time : List ℕ → Option ℤ) (h : List ℕ) (now : ℤ) {d : ℤ}
    → parse_retry_after parse_time h now ≡ some d
    → (pos 0 ≤ℤ d) × (d ≤ℤ max_int64)
parse_retry_after_bounds parse_time h now e =
    subst InRange e (parse_retry_after-InRange parse_time h now)
