-- ===== src/RetryAfter/Seconds.antt =====
-- A Retry-After header of decimal digits.
use native.Mathlib.Nat.{pow-suc}
use mathlib.Core.List.{reverse, reverse-cons, reverse-reverse}
use Prim.Native.Nat.{min}
use circuit_breaker.Base.{
  ℕ, suc, ◌+◌, ◌-◌, ◌*◌, ◌^◌, ◌≤◌, ◌<◌, ◌≡◌, refl, List, [], ◌∷◌, ◌++◌, some, none, Option, arith,
  length, true, false, ◌∙◌, ap, sym,
}
use circuit_breaker.Base.Int.{ℤ, pos}
use circuit_breaker.RetryAfter.{
  is_digit, trim_left, trim_space, digits_from, unsigned, in_range, atoi, date_delay,
  parse_retry_after,
}
use circuit_breaker.RetryAfter.Header.{seconds_delay-pos}

abbrev pub AllDigits : List ℕ → Type 0
AllDigits [] = Unit
AllDigits (c ∷ cs) = (is_digit c ≡ true) × AllDigits cs

-- The number that a string of digits denotes, by the places of its digits.
abbrev pub decimal_value : List ℕ → ℕ
decimal_value [] = 0
decimal_value (c ∷ cs) = (c - b'0') * 10 ^ length cs + decimal_value cs

shift_digit : (n x p v : ℕ) → (n * 10 + x) * p + v ≡ n * (p * 10) + (x * p + v)
shift_digit n x p v = grind arith

digits_from-decimal_value :
    (n : ℕ) (ds : List ℕ)
    → AllDigits ds
    → digits_from n ds ≡ some (n * 10 ^ length ds + decimal_value ds)
unfolding digits_from
digits_from-decimal_value n [] h = ground arith
digits_from-decimal_value n (c ∷ cs) h =
    let e : 10 ^ suc (length cs) ≡ 10 ^ length cs * 10 = pow-suc 10 (length cs) in
    rw h.0 (
      digits_from-decimal_value (n * 10 + (c - b'0')) cs h.1
      ∙ ap some (
          shift_digit n (c - b'0') (10 ^ length cs) (decimal_value cs)
          ∙ ap (λ p. n * p + ((c - b'0') * 10 ^ length cs + decimal_value cs)) (sym e)))

AllDigits-append : (xs ys : List ℕ) → AllDigits xs → AllDigits ys → AllDigits (xs ++ ys)
AllDigits-append [] ys hx hy = hy
AllDigits-append (x ∷ xs) ys hx hy = (hx.0, AllDigits-append xs ys hx.1 hy)

AllDigits-reverse : (xs : List ℕ) → AllDigits xs → AllDigits (reverse xs)
AllDigits-reverse [] h = tt
AllDigits-reverse (x ∷ xs) h =
    rw (reverse-cons x xs)
      (AllDigits-append (reverse xs) (x ∷ []) (AllDigits-reverse xs h.1) (h.0, tt))

trim_left-digits : (xs : List ℕ) → AllDigits xs → trim_left xs ≡ xs
unfolding trim_left
trim_left-digits [] h = refl
trim_left-digits (x ∷ xs) h = ground arith

trim_space-digits : (xs : List ℕ) → AllDigits xs → trim_space xs ≡ xs
unfolding trim_space
trim_space-digits xs h =
    rw (trim_left-digits xs h, trim_left-digits (reverse xs) (AllDigits-reverse xs h))
      (reverse-reverse xs)

unsigned-decimal_value :
    (c : ℕ) (cs : List ℕ) → AllDigits (c ∷ cs) → unsigned (c ∷ cs) ≡ some (decimal_value (c ∷ cs))
unfolding unsigned
unsigned-decimal_value c cs h = digits_from-decimal_value 0 (c ∷ cs) h ∙ ap some (omega arith)

atoi-digits :
    (c : ℕ) (cs : List ℕ)
    → AllDigits (c ∷ cs)
    → atoi (c ∷ cs) ≡ in_range false (some (decimal_value (c ∷ cs)))
unfolding atoi
atoi-digits c cs h = ground (arith, unsigned-decimal_value c cs h)

-- A header of decimal digits below 2 ^ 63 asks for that many seconds, saturated at the largest int64
-- of nanoseconds. From 2 ^ 63 on `Atoi` fails, and the header counts only if it is an HTTP date, so
-- that it is ignored if it is none: the largest of all headers do not arm the gate.
pub parse_retry_after-digits :
    (parse_time : List ℕ → Option ℤ) (c : ℕ) (cs : List ℕ) (now : ℤ)
    → AllDigits (c ∷ cs)
    → let v = decimal_value (c ∷ cs) in
      (v < 2 ^ 63
        → parse_retry_after parse_time (c ∷ cs) now
          ≡ some (pos (min (v * 1_000_000_000) (2 ^ 63 - 1))))
      × (2 ^ 63 ≤ v → parse_time (c ∷ cs) ≡ none → parse_retry_after parse_time (c ∷ cs) now ≡ none)
unfolding parse_retry_after in_range date_delay
parse_retry_after-digits parse_time c cs now h =
    let t = trim_space-digits (c ∷ cs) h in
    let a = atoi-digits c cs h in
    (
      λ lt.
          let b : atoi (c ∷ cs) ≡ some (pos (decimal_value (c ∷ cs))) = a ∙ (ground arith) in
          rw (t, b, parse_retry_after) (seconds_delay-pos (decimal_value (c ∷ cs))),
      λ ge absent.
          let b : atoi (c ∷ cs) ≡ none = a ∙ (ground arith) in
          rw (t, b, parse_retry_after, absent) refl,
    )
