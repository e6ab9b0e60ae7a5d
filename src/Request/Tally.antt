-- ===== src/Request/Tally.antt =====
-- Counting the actions of a trace.
use circuit_breaker.Base.{ℕ, ◌+◌, ◌≡◌, List, [], ◌∷◌, ◌++◌, arith}
use circuit_breaker.Endpoint.{attempt, succeed, fail, again}
use circuit_breaker.Request.{
  timeout_set, timeout_cancelled, timeout_tied, Action, asked, acquired, released, took_token, sent,
  recorded, reported,
}

module _ (w : Action → ℕ) where
  abbrev pub tally : List Action → ℕ
  tally [] = 0
  tally (a ∷ acts) = w a + tally acts

  pub tally-append : (xs ys : List Action) → tally (xs ++ ys) ≡ tally xs + tally ys
  tally-append [] ys = omega arith
  tally-append (x ∷ xs) ys = omega (arith, tally-append xs ys)

abbrev pub one_sent : Action → ℕ
one_sent sent = 1
one_sent _ = 0

-- The actions around the loop, with a weight for each.
abbrev pub outer : ℕ → ℕ → ℕ → ℕ → ℕ → Action → ℕ
outer i j k l m acquired = i
outer i j k l m released = j
outer i j k l m (reported _ _ _ _) = k
outer i j k l m (asked _) = l
outer i j k l m (timeout_set _) = m
outer i j k l m timeout_cancelled = m
outer i j k l m timeout_tied = m
outer i j k l m _ = 0

abbrev pub one_acquired : Action → ℕ
one_acquired = outer 1 0 0 0 0

abbrev pub one_released : Action → ℕ
one_released = outer 0 1 0 0 0

abbrev pub one_reported : Action → ℕ
one_reported = outer 0 0 1 0 0

abbrev pub one_attempt : Action → ℕ
one_attempt (recorded (attempt _ _)) = 1
one_attempt _ = 0

abbrev pub one_outcome : Action → ℕ
one_outcome (recorded (succeed _ _)) = 1
one_outcome (recorded (fail _ _)) = 1
one_outcome _ = 0

abbrev pub one_token : Action → ℕ
one_token took_token = 1
one_token _ = 0

abbrev pub one_retry : Action → ℕ
one_retry (recorded (again _ _)) = 1
one_retry _ = 0
