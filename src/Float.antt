-- ===== src/Float.antt =====
-- What the package uses of `float64`. The arithmetic is a parameter: nothing is assumed of rounding.
use circuit_breaker.Base.Int.{ℤ}

-- `seconds` is `time.Duration.Seconds`, `of_int` the conversion from an integer, and `round_int` the
-- conversion of `math.Round` back to `int`.
pub record Float (F : Type 0) : Type 0 where
  pub zero : F
  pub add : F → F → F
  pub sub : F → F → F
  pub mul : F → F → F
  pub div : F → F → F
  pub of_int : ℤ → F
  pub seconds : ℤ → F
  pub round_int : F → ℤ
