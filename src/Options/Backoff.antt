-- ===== src/Options/Backoff.antt =====
-- The exponential backoff of pkg/options.go against its documentation: min(max, base * 2 ^ attempt).
use native.Mathlib.Nat.{pow-suc, mul_assoc, mul_comm}
use Prim.Native.Nat.{min}
use circuit_breaker.Base.{
  ℕ, zero, suc, ◌*◌, ◌/◌, ◌^◌, ◌≤◌, ◌<◌, ◌≡◌, Bool, true, false, ◌||◌, if◌then◌else◌, arith, dec_lt,
}
use circuit_breaker.Base.Int.{ℤ, pos, ◌*ℤ◌, ◌≤ℤ◌, ◌<ℤ◌, ltb_ℤ, leb_ℤ}
use circuit_breaker.Base.Words.{int64, int64_exact}
use circuit_breaker.Circuit.{Circuit}
use circuit_breaker.Options.{double_until, backoff_for, with_exponential_backoff}

-- The largest ceiling below which no doubling can leave the int64 range.
abbrev pub safe_max : ℕ
safe_max = 2 ^ 62

double : (d : ℕ) → d < safe_max → int64 (pos d *ℤ pos 2) ≡ pos (2 * d)
unfolding ◌*ℤ◌
double d h =
    let e : pos d *ℤ pos 2 ≡ pos (2 * d) = ground arith in
    rw e (int64_exact (pos (2 * d)) (omega arith))

abbrev ceiling : ℤ → ℤ → ℤ
ceiling max d = if leb_ℤ d (pos 0) || ltb_ℤ max d then max else d

pow_pos : (k : ℕ) → 0 < 2 ^ k
pow_pos zero = omega arith
pow_pos (suc k) = omega (arith, pow-suc 2 k, pow_pos k)

above_max : (max d k : ℕ) → max ≤ d → max ≤ d * 2 ^ k
above_max max d k h = grind (arith, pow_pos k)

ceiling-double_until :
    (max k d : ℕ)
    → max ≤ safe_max
    → 0 < d
    → ceiling (pos max) (double_until (pos max) k (pos d)) ≡ pos (min max (d * 2 ^ k))
unfolding double_until
ceiling-double_until max zero d h p = ground arith
ceiling-double_until max (suc k) d h p = elim (dec_lt d max) [
  | yes below ↦
      let e : 2 * d * 2 ^ k ≡ d * 2 ^ suc k =
        simp (pow-suc, mul_assoc, mul_comm 2 d) (omega arith) in
      ground (arith, double d (omega arith), ceiling-double_until max k (2 * d) h (omega arith), e)
  | no above ↦ ground (arith, above_max max d (suc k) (omega arith))
]

-- Without jitter, a ceiling of at most 2 ^ 62 ns (146 years) and a positive base make the wait before
-- attempt n + 1 exactly min(max(base, max), base * 2 ^ n): no doubling wraps. With jitter, and a
-- random draw below its argument, a wait of d > 1 becomes one from d / 2 on and below d.
pub backoff_for_lem :
    (draw : ℕ → ℕ) (base max n : ℕ) (jitter : Bool) (cb : Circuit)
    → ((k : ℕ) → 0 < k → draw k < k)
    → 0 < base
    → base ≤ safe_max
    → max ≤ safe_max
    → let cb' = with_exponential_backoff (pos base) (pos max) jitter cb in
      let d = min (Prim.Native.Nat.max base max) (base * 2 ^ n) in
      (jitter ≡ false → backoff_for draw cb' n ≡ pos d)
      × (jitter ≡ true
          → (pos (d / 2) ≤ℤ backoff_for draw cb' n)
            × (backoff_for draw cb' n ≤ℤ pos d)
            × (1 < d → backoff_for draw cb' n <ℤ pos d))
unfolding backoff_for with_exponential_backoff
backoff_for_lem draw base max n jitter cb fair p hb hm =
    let top : ℕ = Prim.Native.Nat.max base max in
    let d : ℕ = min top (base * 2 ^ n) in
    let c = ceiling-double_until top n base (omega arith) p in
    let f = fair (d / 2) in
    (
      λ e. ground (arith, c),
      λ e. (ground (arith, c, f), ground (arith, c, f), λ h. ground (arith, c, f)),
    )
