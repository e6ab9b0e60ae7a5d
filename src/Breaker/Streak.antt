-- ===== src/Breaker/Streak.antt =====
-- How many failures open a closed circuit.
use circuit_breaker.Base.{ℕ, suc, ◌≤◌, ◌<◌, ◌≡◌, ◌↔◌, List, [], ◌∷◌, false, arith, dec_lt}
use circuit_breaker.Base.Int.{ℤ, pos, ◌+ℤ◌}
use circuit_breaker.Breaker.{
  state_closed, state_open, Outcome, outcome_neutral, outcome_success, outcome_failure, Breaker,
  new_breaker_state, report,
}

-- The reports of calls that were admitted while the circuit was closed, each with its time.
pub reports : Breaker → List (ℤ × Outcome) → Breaker
reports b [] = b
reports b ((now, o) ∷ os) = reports (report false 0 now o b) os

-- The failures since the last success, `n` of them before the list, reach `k` at some point.
-- Neutral outcomes neither count nor interrupt.
pub data Reaches (k : ℕ) : ℕ → List (ℤ × Outcome) → Type 0 where
  enough :
      {n : ℕ} {now : ℤ} {os : List (ℤ × Outcome)}
      → k ≤ suc n
      → Reaches k n ((now, outcome_failure) ∷ os)
  count :
      {n : ℕ} {now : ℤ} {os : List (ℤ × Outcome)}
      → Reaches k (suc n) os
      → Reaches k n ((now, outcome_failure) ∷ os)
  reset :
      {n : ℕ} {now : ℤ} {os : List (ℤ × Outcome)}
      → Reaches k 0 os
      → Reaches k n ((now, outcome_success) ∷ os)
  skip :
      {n : ℕ} {now : ℤ} {os : List (ℤ × Outcome)}
      → Reaches k n os
      → Reaches k n ((now, outcome_neutral) ∷ os)

-- A closed circuit with `n` failures counted so far.
record Counting (k n : ℕ) (b : Breaker) : Type 0 where
  is_closed : b.cur ≡ state_closed
  limit : b.threshold ≡ pos k
  counted : b.consec_fails ≡ pos n
  below : n < k

report-trips :
    {k n : ℕ} (now : ℤ) {b : Breaker}
    → Counting k n b
    → k ≤ suc n
    → (report false 0 now outcome_failure b).cur ≡ state_open
unfolding report ◌+ℤ◌
report-trips now c h = ground arith

report-counts :
    {k n : ℕ} (now : ℤ) {b : Breaker}
    → Counting k n b
    → suc n < k
    → Counting k (suc n) (report false 0 now outcome_failure b)
unfolding report ◌+ℤ◌
report-counts now c h = ground arith

report-resets :
    {k n : ℕ} (now : ℤ) {b : Breaker}
    → Counting k n b
    → Counting k 0 (report false 0 now outcome_success b)
unfolding report
report-resets now c = ground arith

report-skips :
    {k n : ℕ} (now : ℤ) {b : Breaker}
    → Counting k n b
    → Counting k n (report false 0 now outcome_neutral b)
unfolding report
report-skips now c = ground arith

open_stays :
    (b : Breaker) (os : List (ℤ × Outcome)) → b.cur ≡ state_open → (reports b os).cur ≡ state_open
unfolding reports report
open_stays b [] h = h
open_stays b ((now, o) ∷ os) h = open_stays (report false 0 now o b) os (ground arith)

reports_open_if :
    (os : List (ℤ × Outcome)) {k n : ℕ} (b : Breaker)
    → Counting k n b
    → Reaches k n os
    → (reports b os).cur ≡ state_open
unfolding reports
reports_open_if [] b c r = elim r [ ]
reports_open_if ((now, outcome_failure) ∷ os) {k} {n} b c (enough h) =
    open_stays _ os (report-trips now c h)
reports_open_if ((now, outcome_failure) ∷ os) {k} {n} b c (count r) = elim (dec_lt (suc n) k) [
  | yes more ↦ reports_open_if os _ (report-counts now c more) r
  | no trip ↦ open_stays _ os (report-trips now c (omega arith))
]
reports_open_if ((now, outcome_success) ∷ os) b c (reset r) =
    reports_open_if os _ (report-resets now c) r
reports_open_if ((now, outcome_neutral) ∷ os) b c (skip r) =
    reports_open_if os _ (report-skips now c) r

reports_open_only_if :
    (os : List (ℤ × Outcome)) {k n : ℕ} (b : Breaker)
    → Counting k n b
    → (reports b os).cur ≡ state_open
    → Reaches k n os
unfolding reports
reports_open_only_if [] b c h = ground arith
reports_open_only_if ((now, outcome_failure) ∷ os) {k} {n} b c h = elim (dec_lt (suc n) k) [
  | yes more ↦ count (reports_open_only_if os _ (report-counts now c more) h)
  | no trip ↦ enough (omega arith)
]
reports_open_only_if ((now, outcome_success) ∷ os) b c h =
    reset (reports_open_only_if os _ (report-resets now c) h)
reports_open_only_if ((now, outcome_neutral) ∷ os) b c h =
    skip (reports_open_only_if os _ (report-skips now c) h)

-- A new circuit with threshold `k`, 1 at least, is open after a sequence of reports exactly when at
-- some point of it `k` failures have come with no success between them; once open, later reports
-- leave it open.
pub reports_open_iff :
    (zero_time : ℤ) (k : ℕ) (open_for max_probes : ℤ) (os : List (ℤ × Outcome))
    → 0 < k
    → ((reports (new_breaker_state zero_time (pos k) open_for max_probes) os).cur ≡ state_open)
      ↔ Reaches k 0 os
unfolding new_breaker_state
reports_open_iff z k o m os h =
    let c : Counting k 0 (new_breaker_state z (pos k) o m) = ground arith in
    (reports_open_only_if os _ c, reports_open_if os _ c)
