-- ===== src/Base/Words.antt =====
-- Go's fixed-width integers: the signed value that a 64-bit two's complement word stands for.
use circuit_breaker.Base.Tests.{ltb, if◌then◌else◌}
use circuit_breaker.Base.Int.{ℤ, pos, negsuc, ◌+ℤ◌, ◌-ℤ◌, ◌≤ℤ◌, ◌<ℤ◌, ltb_ℤ, +ℤ_parts, -ℤ_parts}
use Prim.Native.Nat.{ℕ, ◌+◌, ◌-◌, ◌%◌, ◌^◌}
use mathlib.Core.Path.{◌≡◌}
use native.Mathlib.Omega.{arith}

abbrev pub max_int64 : ℤ
max_int64 = pos (2 ^ 63 - 1)

abbrev pub min_int64 : ℤ
min_int64 = negsuc (2 ^ 63 - 1)

abbrev pub IsInt64 : ℤ → Type 0
IsInt64 z = (min_int64 ≤ℤ z) × (z ≤ℤ max_int64)

-- The word that holds `z` after it wrapped.
abbrev pub word64 : ℤ → ℕ
word64 (pos n) = n % 2 ^ 64
word64 (negsuc n) = 2 ^ 64 - 1 - n % 2 ^ 64

abbrev pub signed64 : ℕ → ℤ
signed64 w = if ltb w (2 ^ 63) then pos w else negsuc (2 ^ 64 - w - 1)

-- The result of `int64` arithmetic whose exact value is `z`.
unfoldable pub int64 : ℤ → ℤ
int64 z = signed64 (word64 z)

pub int64_exact : (z : ℤ) → IsInt64 z → int64 z ≡ z
unfolding int64
int64_exact (pos n) h = ground arith
int64_exact (negsuc n) h = ground arith

pub int64-IsInt64 : (z : ℤ) → IsInt64 (int64 z)
unfolding int64
int64-IsInt64 (pos n) = ground arith
int64-IsInt64 (negsuc n) = ground arith

-- Unsigned and signed 64-bit counters, as words.
abbrev pub add64 : ℕ → ℕ → ℕ
add64 a b = (a + b) % 2 ^ 64

-- `time.Time` is the number of nanoseconds since 1970; `t.Sub(u)` saturates at the ends of int64.
pub saturate : ℤ → ℤ
saturate z = if ltb_ℤ z min_int64 then min_int64 else if ltb_ℤ max_int64 z then max_int64 else z

unfoldable pub sub_time : ℤ → ℤ → ℤ
unfolding saturate
sub_time t u = saturate (t -ℤ u)

saturate_bounds : (z : ℤ) → IsInt64 (saturate z)
unfolding saturate
saturate_bounds z = ground arith

pub sub_time-IsInt64 : (t u : ℤ) → IsInt64 (sub_time t u)
unfolding sub_time
sub_time-IsInt64 t u = saturate_bounds (t -ℤ u)

saturate_lt : (z d : ℤ) → min_int64 <ℤ d → d ≤ℤ max_int64 → z <ℤ d → saturate z <ℤ d
unfolding saturate
saturate_lt z d lo hi h = ground arith

saturate_ge : (z d : ℤ) → min_int64 <ℤ d → d ≤ℤ max_int64 → d ≤ℤ z → d ≤ℤ saturate z
unfolding saturate
saturate_ge z d lo hi h = ground arith

-- Saturation does not disturb a comparison with a duration.
pub sub_time_lt : (t u d : ℤ) → min_int64 <ℤ d → d ≤ℤ max_int64 → t <ℤ u +ℤ d → sub_time t u <ℤ d
unfolding sub_time
sub_time_lt t u d lo hi h = saturate_lt (t -ℤ u) d lo hi (omega (arith, +ℤ_parts u d, -ℤ_parts t u))

pub sub_time_ge : (t u d : ℤ) → min_int64 <ℤ d → d ≤ℤ max_int64 → u +ℤ d ≤ℤ t → d ≤ℤ sub_time t u
unfolding sub_time
sub_time_ge t u d lo hi h = saturate_ge (t -ℤ u) d lo hi (omega (arith, +ℤ_parts u d, -ℤ_parts t u))
