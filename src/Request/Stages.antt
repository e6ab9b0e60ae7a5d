-- ===== src/Request/Stages.antt =====
-- What one round of the loop of `Do` counts to, stage by stage.
use circuit_breaker.Base.{
  ℕ, ◌+◌, ◌≤◌, ◌≡◌, refl, List, [], ◌∷◌, ◌++◌, arith, Bool, if◌then◌else◌, Option, none, some,
  Option-cases, inl, inr,
}
use circuit_breaker.Base.Int.{ℤ}
use circuit_breaker.Errors.{Err}
use circuit_breaker.Breaker.{status_fails}
use circuit_breaker.Endpoint.{attempt, succeed, fail}
use circuit_breaker.Circuit.{Circuit}
use circuit_breaker.Bucket.{wait_for_token}
use circuit_breaker.RetryAfter.{parse_retry_after, wait_retry_after_gate}
use circuit_breaker.Request.{
  Transport, Action, Request, Response, Env, Attempt, Ending, Round, leaves, goes_on, first,
  returned, panicked, waiting, responds, fails, panics, hangs, sent, recorded, rewound, took_token,
  refuse, pause, retry_after, on_response, on_failure, send, rewind_and_send, with_token,
  attempt_once,
}
use circuit_breaker.Request.Tally.{tally, tally-append, one_sent, one_attempt, one_outcome}

-- A call that panicked or has not come back.
abbrev pub unfinished_at : Ending → ℕ
unfinished_at (returned resp e) = 0
unfinished_at panicked = 1
unfinished_at waiting = 1

pub unfinished_at_one : (e : Ending) → unfinished_at e ≤ 1
unfinished_at_one (returned resp e) = omega arith
unfinished_at_one panicked = omega arith
unfinished_at_one waiting = omega arith

abbrev pub count : (Action → ℕ) → Round → ℕ
count w (leaves acts _ _) = tally w acts
count w (goes_on acts _) = tally w acts

abbrev pub unfinished_of : Round → ℕ
unfinished_of (leaves _ ending _) = unfinished_at ending
unfinished_of (goes_on _ _) = 0

abbrev pub exits : Round → ℕ
exits (leaves _ _ _) = 1
exits (goes_on _ _) = 0

pub count-first :
    (w : Action → ℕ) (acts : List Action) (r : Round)
    → count w (first acts r) ≡ tally w acts + count w r
count-first w acts (leaves xs ending last) = tally-append w acts xs
count-first w acts (goes_on xs last) = tally-append w acts xs

unfinished_of-first :
    (acts : List Action) (r : Round) → unfinished_of (first acts r) ≡ unfinished_of r
unfinished_of-first acts (leaves xs ending last) = refl
unfinished_of-first acts (goes_on xs last) = refl

-- Sends, attempts and outcomes; a panic, or a wait without end, stands for the outcome that is not
-- recorded.
unfoldable pub Counts : ℕ → ℕ → ℕ → Round → Type 0
Counts s t o r =
    (count one_sent r ≡ s) × (count one_attempt r ≡ t) × (count one_outcome r + unfinished_of r ≡ o)

first-counts :
    (acts : List Action) (r : Round)
    → (count one_sent (first acts r) ≡ tally one_sent acts + count one_sent r)
      × (count one_attempt (first acts r) ≡ tally one_attempt acts + count one_attempt r)
      × (count one_outcome (first acts r) + unfinished_of (first acts r)
          ≡ tally one_outcome acts + (count one_outcome r + unfinished_of r))
first-counts acts r = (
  count-first one_sent acts r,
  count-first one_attempt acts r,
  omega (arith, count-first one_outcome acts r, unfinished_of-first acts r),
)

-- One round: at most one attempt, which sends at most once and has an outcome, a panic or a wait without
-- end; a wait that was refused has an outcome alone, and one for permission to send nothing. Only a
-- round with an attempt goes on.
unfoldable pub Settles : Round → Type 0
Settles r =
    (count one_sent r ≤ count one_attempt r)
    × (count one_attempt r ≤ count one_outcome r + unfinished_of r)
    × (count one_outcome r + unfinished_of r ≤ 1)
    × (exits r ≡ 0 → count one_attempt r ≡ 1)

pub exits-first : (acts : List Action) (r : Round) → exits (first acts r) ≡ exits r
exits-first acts (leaves xs ending last) = refl
exits-first acts (goes_on xs last) = refl

module _ (cb : Circuit) (req : Request) (env : Env) (a : Attempt) (more : Bool) (n : ℕ) where
  pub refuse-Counts :
      (e : Err) (last : Option Err) → Counts 0 0 1 (refuse cb req env a more n e last)
  unfolding refuse Counts
  refuse-Counts e last = (ground arith, ground arith, ground arith)

  on_failure-Counts : (e : Err) → Counts 0 0 1 (on_failure cb req env a more n e)
  unfolding on_failure pause Counts
  on_failure-Counts e = elim (Option-cases a.interrupted) [
    | inl i ↦ (ground arith, ground arith, ground arith)
    | inr (x, i) ↦ (ground arith, ground arith, ground arith)
  ]

  retry_after-Counts :
      (r : Response) (delay : ℤ) (last : Option Err)
      → Counts 0 0 0 (retry_after cb req env a more n r delay last)
  unfolding retry_after pause Counts
  retry_after-Counts r delay last = elim (Option-cases a.interrupted) [
    | inl i ↦ (ground arith, ground arith, ground arith)
    | inr (x, i) ↦ (ground arith, ground arith, ground arith)
  ]

  on_response-Counts :
      (r : Response) (last : Option Err) → Counts 0 0 1 (on_response cb req env a more n r last)
  unfolding on_response Counts
  on_response-Counts r last =
      elim (Option-cases (parse_retry_after env.parse_time r.retry_after a.header_at)) [
        | inl p ↦ (ground arith, ground arith, ground arith)
        | inr (delay, p) ↦
            let c = retry_after-Counts r delay last in
            let counted =
              if status_fails (some r.status) cb.status_fail_min
              then fail a.start a.done_at
              else succeed a.start a.done_at in
            let q =
              first-counts (recorded counted ∷ []) (retry_after cb req env a more n r delay last) in
            (ground (arith, c.0, q.0), ground (arith, c.1, q.1), ground (arith, c.2, q.2))
      ]

  sends-Counts :
      (last : Option Err) (t : Transport)
      → a.transport ≡ t
      → Counts 1 0 1 (send cb req env a more n last)
  unfolding send Counts
  sends-Counts last panics e = rw (e, send) (refl, refl, refl)
  sends-Counts last hangs e = rw (e, send) (refl, refl, refl)
  sends-Counts last (responds r) e =
      let c = on_response-Counts r last in
      let q = first-counts (sent ∷ []) (on_response cb req env a more n r last) in
      rw (e, send) (omega (arith, c.0, q.0), omega (arith, c.1, q.1), omega (arith, c.2, q.2))
  sends-Counts last (fails x) e =
      let c = on_failure-Counts x in
      let q = first-counts (sent ∷ []) (on_failure cb req env a more n x) in
      rw (e, send) (omega (arith, c.0, q.0), omega (arith, c.1, q.1), omega (arith, c.2, q.2))

  -- The body's rewind may fail or panic before the send.
  pub rewind_and_send-counts :
      (last : Option Err)
      → (count one_sent (rewind_and_send cb req env a more n last) ≤ 1)
        × (count one_attempt (rewind_and_send cb req env a more n last) ≡ 0)
        × (count one_outcome (rewind_and_send cb req env a more n last)
              + unfinished_of (rewind_and_send cb req env a more n last)
            ≡ 1)
  unfolding rewind_and_send Counts
  rewind_and_send-counts last =
      let c : Counts 1 0 1 (send cb req env a more n last) = sends-Counts last a.transport refl in
      let q = first-counts (rewound ∷ []) (send cb req env a more n last) in
      elim (Option-cases a.body_err) [
        | inl b ↦ (ground (arith, c.0, q.0), ground (arith, c.1, q.1), ground (arith, c.2, q.2))
        | inr (x, b) ↦ (ground (arith, c.0), ground (arith, c.1), ground (arith, c.2))
      ]

  took-Settles :
      (last : Option Err)
      → Settles (
          first
            (elim cb.tokens [ none ↦ [] | some _ ↦ took_token ∷ [] ]
              ++ recorded (attempt a.start a.attempted_at) ∷ [])
            (rewind_and_send cb req env a more n last))
  unfolding Settles
  took-Settles last =
      let c = rewind_and_send-counts last in
      let r = rewind_and_send cb req env a more n last in
      elim (Option-cases cb.tokens) [
        | inl t ↦
            let q = first-counts (recorded (attempt a.start a.attempted_at) ∷ []) r in
            simp (t) (
              omega (arith, c.0, c.1, q.0, q.1),
              omega (arith, c.1, c.2, q.1, q.2),
              omega (arith, c.2, q.2),
              λ e. omega (arith, c.1, q.1),
            )
        | inr (x, t) ↦
            let q = first-counts (took_token ∷ recorded (attempt a.start a.attempted_at) ∷ []) r in
            simp (t) (
              omega (arith, c.0, c.1, q.0, q.1),
              omega (arith, c.1, c.2, q.1, q.2),
              omega (arith, c.2, q.2),
              λ e. omega (arith, c.1, q.1),
            )
      ]

  waits-Settles : (last : Option Err) → Settles (leaves [] waiting last)
  unfolding Settles
  waits-Settles last = (omega arith, omega arith, omega arith, λ e. omega arith)

  refuse-Settles : (e : Err) (last : Option Err) → Settles (refuse cb req env a more n e last)
  unfolding refuse Settles
  refuse-Settles e last = (ground arith, ground arith, ground arith, λ x. ground arith)

  with_token-Settles : (last : Option Err) → Settles (with_token cb req env a more n last)
  unfolding with_token
  with_token-Settles last =
      elim (Option-cases (
        wait_for_token a.ctx_err a.woken
          (elim cb.tokens [ none ↦ none | some _ ↦ some a.bucket ]))) [
            | inl w ↦ rw (w, with_token) (waits-Settles last)
            | inr ((none, c), w) ↦ rw (w, with_token) (took-Settles last)
            | inr ((some e, c), w) ↦ rw (w, with_token) (refuse-Settles e last)
          ]

  pub attempt_once-Settles : (last : Option Err) → Settles (attempt_once cb req env a more n last)
  unfolding attempt_once
  attempt_once-Settles last =
      elim (Option-cases (wait_retry_after_gate cb.retry_after_max a.gate_rounds)) [
        | inl w ↦ rw (w, attempt_once) (waits-Settles last)
        | inr (none, w) ↦ rw (w, attempt_once) (with_token-Settles last)
        | inr (some e, w) ↦ rw (w, attempt_once) (refuse-Settles e last)
      ]
