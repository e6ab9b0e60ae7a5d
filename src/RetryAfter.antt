-- ===== src/RetryAfter.antt =====
-- The Retry-After handling of pkg/circuitbreaker.go: `retryAfterStatus`, `parseRetryAfter`,
-- `extendRetryAfterGate` and `waitRetryAfterGate`. A header is the list of its bytes.
pub mod Header
pub mod Seconds
pub mod Gate
use circuit_breaker.Base.{
  ℕ, zero, suc, ◌+◌, ◌-◌, ◌*◌, ◌^◌, Bool, true, false, ◌||◌, ◌&&◌, Option, none, some, List, [],
  ◌∷◌, if◌then◌else◌, ltb, leb, ◌==◌,
}
use circuit_breaker.Base.Int.{ℤ, pos, negsuc, ◌*ℤ◌, ◌-ℤ◌, ◌+ℤ◌, ltb_ℤ, leb_ℤ, eqb_ℤ}
use circuit_breaker.Base.Words.{max_int64, int64, sub_time}
use circuit_breaker.Errors.{Err, stopped}
use mathlib.Core.List.{reverse}

abbrev pub too_many_requests : ℤ
too_many_requests = pos 429

abbrev pub service_unavailable : ℤ
service_unavailable = pos 503

unfoldable pub retry_after_status : ℤ → Bool
retry_after_status code = eqb_ℤ code too_many_requests || eqb_ℤ code service_unavailable

-- `strings.TrimSpace` on ASCII.
abbrev pub is_space : ℕ → Bool
is_space c = c == b' ' || (leb 9 c && leb c 13)

unfoldable pub trim_left : List ℕ → List ℕ
trim_left [] = []
trim_left (c ∷ cs) = if is_space c then trim_left cs else c ∷ cs

unfoldable pub trim_space : List ℕ → List ℕ
unfolding trim_left
trim_space h = reverse (trim_left (reverse (trim_left h)))

abbrev pub is_digit : ℕ → Bool
is_digit c = leb b'0' c && leb c b'9'

-- Decimal digits, after the number `n` so far; `none` at any other byte.
unfoldable pub digits_from : ℕ → List ℕ → Option ℕ
digits_from n [] = some n
digits_from n (c ∷ cs) =
    let rest = digits_from (n * 10 + (c - b'0')) cs in if is_digit c then rest else none

unfoldable pub unsigned : List ℕ → Option ℕ
unsigned [] = none
unsigned (c ∷ cs) = digits_from 0 (c ∷ cs)

abbrev pub negate : ℕ → ℤ
negate zero = pos 0
negate (suc n) = negsuc n

-- `strconv.Atoi` on a 64-bit machine: an optional sign, digits, and an error out of the range of int.
unfoldable pub in_range : Bool → Option ℕ → Option ℤ
in_range minus none = none
in_range true (some n) = if leb n (2 ^ 63) then some (negate n) else none
in_range false (some n) = if ltb n (2 ^ 63) then some (pos n) else none

unfoldable pub atoi : List ℕ → Option ℤ
atoi [] = none
atoi (c ∷ cs) =
    if c == b'-'
    then in_range true (unsigned cs)
    else if c == b'+'
    then in_range false (unsigned cs)
    else in_range false (unsigned (c ∷ cs))

-- `int64(math.MaxInt64)/int64(time.Second)`
abbrev pub max_seconds : ℤ
max_seconds = pos 9_223_372_036

-- A header of seconds.
unfoldable pub seconds_delay : ℤ → Option ℤ
seconds_delay secs =
    if ltb_ℤ secs (pos 0)
    then none
    else if ltb_ℤ max_seconds secs
    then some max_int64
    else some (int64 (secs *ℤ pos 1_000_000_000))

-- A header with an HTTP date.
unfoldable pub date_delay : ℤ → Option ℤ → Option ℤ
date_delay now none = none
date_delay now (some t) = let d = sub_time t now in some (if ltb_ℤ d (pos 0) then pos 0 else d)

-- `parse_time` stands for `http.ParseTime`.
unfoldable pub parse_retry_after : (List ℕ → Option ℤ) → List ℕ → ℤ → Option ℤ
parse_retry_after parse_time h now = elim (trim_space h) [
  | [] ↦ none
  | c ∷ cs ↦ elim (atoi (c ∷ cs)) [
    | some secs ↦ seconds_delay secs
    | none ↦ date_delay now (parse_time (c ∷ cs))
  ]
]

-- The loop of `extendRetryAfterGate`. `cur` is what it loads; `found` lists what each `CompareAndSwap`
-- finds in the meantime, until none of the other goroutines writes any more. The result is the gate
-- when the loop returns.
unfoldable pub extend_gate : ℤ → ℤ → List ℤ → ℤ
extend_gate n cur [] = if leb_ℤ n cur then cur else n
extend_gate n cur (c ∷ found) =
    let again = extend_gate n c found in
    if leb_ℤ n cur then cur else if eqb_ℤ c cur then n else again

-- One round of `waitRetryAfterGate`: the gate and the clock that it reads, and what ends its `select`.
pub data Wake : Type 0 where
  ctx_done : Err → Wake
  stop_signal elapsed : Wake

pub record Round : Type 0 where
  pub gate : ℤ
  pub now : ℤ
  pub wake : Wake

-- `none`: still waiting after these rounds. Otherwise the error, or nil.
unfoldable pub wait_gate_loop : List Round → Option (Option Err)
wait_gate_loop [] = none
wait_gate_loop (r ∷ rs) =
    let rest = wait_gate_loop rs in
    if leb_ℤ (sub_time r.gate r.now) (pos 0) then some none else elim r.wake [
      | ctx_done e ↦ some (some e)
      | stop_signal ↦ some (some stopped)
      | elapsed ↦ rest
    ]

unfoldable pub wait_retry_after_gate : ℤ → List Round → Option (Option Err)
wait_retry_after_gate retry_after_max rs =
    if leb_ℤ retry_after_max (pos 0) then some none else wait_gate_loop rs
