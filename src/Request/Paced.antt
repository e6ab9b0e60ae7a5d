-- ===== src/Request/Paced.antt =====
-- Before each send `Do` does what the send needs: with a limit on the rate it takes a token, and always
-- it records an attempt.
use circuit_breaker.Base.{
  ℕ, zero, suc, ◌+◌, ◌-◌, ◌≤◌, ◌≡◌, refl, ap, ◌∙◌, ◌-◌, List, [], ◌∷◌, ◌++◌, arith, Bool, Option,
  none, some, Option-cases, inl, inr,
}
use mathlib.Core.Path.{subst}
use circuit_breaker.Errors.{Err}
use circuit_breaker.Breaker.{Breaker, allow}
use circuit_breaker.Circuit.{Circuit, Channel}
use circuit_breaker.Endpoint.{attempt}
use circuit_breaker.Bucket.{wait_for_token}
use circuit_breaker.RetryAfter.{wait_retry_after_gate}
use circuit_breaker.Request.{
  Action, asked, acquired, released, took_token, recorded, Request, Env, Attempt, Run, Round,
  leaves, goes_on, first, Ending, returned, panicked, waiting, deferred, after, refuse,
  rewind_and_send, with_token, attempt_once, attempts_from, rounds, is_more, with_slot,
  with_breaker, tells,
}
use circuit_breaker.Request.Tally.{tally, one_sent, one_token, one_attempt}
use circuit_breaker.Request.Stages.{count, rewind_and_send-counts, refuse-Counts, Counts}
use circuit_breaker.Request.Layers.{
  with_breaker_admitted, SlotRun, no_limit, held, gave_up, stuck, with_slot-SlotRun,
}

-- How often `w` must have happened before these actions, for each send to be preceded by its own, if it
-- must have happened `n` times more often than sends after them.
abbrev pub owed : (Action → ℕ) → List Action → ℕ → ℕ
owed w [] n = n
owed w (a ∷ acts) n = owed w acts n + one_sent a - w a

module _ (w : Action → ℕ) where
  owed-append : (xs ys : List Action) (n : ℕ) → owed w (xs ++ ys) n ≡ owed w xs (owed w ys n)
  owed-append [] ys n = refl
  owed-append (x ∷ xs) ys n = ap (λ m. m + one_sent x - w x) (owed-append xs ys n)

  owed_le : (acts : List Action) (n : ℕ) → owed w acts n ≤ n + tally one_sent acts
  owed_le [] n = omega arith
  owed_le (a ∷ acts) n = omega (arith, owed_le acts n)

  owed_mono : (acts : List Action) (n m : ℕ) → n ≤ m → owed w acts n ≤ owed w acts m
  owed_mono [] n m le = le
  owed_mono (a ∷ acts) n m le = omega (arith, owed_mono acts n m le)

  -- Actions without a send.
  owed_unsent :
      (acts : List Action) (n : ℕ) → tally one_sent acts ≡ 0 → owed w acts n ≡ n - tally w acts
  owed_unsent [] n z = omega arith
  owed_unsent (a ∷ acts) n z = omega (arith, owed_unsent acts n (omega (arith, z)))

abbrev acts_of : Round → List Action
acts_of (leaves acts ending last) = acts
acts_of (goes_on acts last) = acts

acts_of-first : (acts : List Action) (r : Round) → acts_of (first acts r) ≡ acts ++ acts_of r
acts_of-first acts (leaves xs ending last) = refl
acts_of-first acts (goes_on xs last) = refl

acts_of_sent : (r : Round) → tally one_sent (acts_of r) ≡ count one_sent r
acts_of_sent (leaves acts ending last) = refl
acts_of_sent (goes_on acts last) = refl

-- What a round does between its permission and its send.
abbrev pub permitted : Circuit → Attempt → List Action
permitted cb a =
    elim cb.tokens [ none ↦ [] | some _ ↦ took_token ∷ [] ]
    ++ recorded (attempt a.start a.attempted_at) ∷ []

pub permitted_unsent : (cb : Circuit) (a : Attempt) → tally one_sent (permitted cb a) ≡ 0
permitted_unsent cb a = elim (Option-cases cb.tokens) [
  | inl t ↦ simp (t) refl
  | inr (ch, t) ↦ simp (t) refl
]

module _ (w : Action → ℕ) (cb : Circuit) (req : Request) (env : Env)
    (grants : (a : Attempt) → 1 ≤ tally w (permitted cb a)) where
  module _ (a : Attempt) (more : Bool) (n : ℕ) where
    refuse-owed :
        (e : Err) (last : Option Err) (m : ℕ)
        → owed w (acts_of (refuse cb req env a more n e last)) m ≤ m
    unfolding Counts
    refuse-owed e last m =
        let r = refuse cb req env a more n e last in
        omega (
          arith,
          owed_le w (acts_of r) m,
          acts_of_sent r,
          (refuse-Counts cb req env a more n e last).0,
        )

    with_token-owed :
        (last : Option Err) (m : ℕ) → owed w (acts_of (with_token cb req env a more n last)) m ≤ m
    unfolding with_token
    with_token-owed last m =
        elim (Option-cases (
          wait_for_token a.ctx_err a.woken
            (elim cb.tokens [ none ↦ none | some _ ↦ some a.bucket ]))) [
              | inl w' ↦ simp (w', with_token) (omega arith)
              | inr ((some e, c), w') ↦ simp (w', with_token) (refuse-owed e last m)
              | inr ((none, c), w') ↦
                  let r = rewind_and_send cb req env a more n last in
                  let acts = permitted cb a in
                  let n' = owed w (acts_of r) m in
                  let sends = (rewind_and_send-counts cb req env a more n last).0 in
                  let q =
                    ap (λ l. owed w l m) (acts_of-first acts r)
                    ∙ owed-append w acts (acts_of r) m in
                  let g = owed_unsent w acts n' (permitted_unsent cb a) in
                  simp (w', with_token)
                    (omega (arith, q, g, grants a, owed_le w (acts_of r) m, acts_of_sent r, sends))
            ]

    attempt_once-owed :
        (last : Option Err) (m : ℕ) → owed w (acts_of (attempt_once cb req env a more n last)) m ≤ m
    unfolding attempt_once
    attempt_once-owed last m =
        elim (Option-cases (wait_retry_after_gate cb.retry_after_max a.gate_rounds)) [
          | inl w' ↦ simp (w', attempt_once) (omega arith)
          | inr (none, w') ↦ simp (w', attempt_once) (with_token-owed last m)
          | inr (some e, w') ↦ simp (w', attempt_once) (refuse-owed e last m)
        ]

  round-owed :
      (left n : ℕ) (last : Option Err) (r : Round)
      → ((e : Option Err) → owed w (attempts_from cb req env left (suc n) e).trace 0 ≤ 0)
      → attempt_once cb req env (env.attempts n) (is_more left) n last ≡ r
      → ((m : ℕ) → owed w (acts_of r) m ≤ m)
      → owed w (attempts_from cb req env (suc left) n last).trace 0 ≤ 0
  unfolding attempts_from
  round-owed left n last (leaves acts ending e) ih q s = simp (q, attempts_from) (s 0)
  round-owed left n last (goes_on acts e) ih q s =
      let later = (attempts_from cb req env left (suc n) e).trace in
      simp (q, attempts_from) (omega (arith, owed-append w acts later 0, s (owed w later 0), ih e))

  attempts_from-owed :
      (left n : ℕ) (last : Option Err) → owed w (attempts_from cb req env left n last).trace 0 ≤ 0
  unfolding attempts_from
  attempts_from-owed zero n last = omega arith
  attempts_from-owed (suc left) n last =
      round-owed left n last _ (attempts_from-owed left (suc n)) refl
        (attempt_once-owed (env.attempts n) (is_more left) n last)

  append-owed :
      (xs ys : List Action) → tally one_sent ys ≡ 0 → owed w xs 0 ≤ 0 → owed w (xs ++ ys) 0 ≤ 0
  append-owed xs ys z h = omega (
    arith,
    owed-append w xs ys 0,
    owed_mono w xs (owed w ys 0) 0 (omega (arith, owed_le w ys 0, z)),
    h,
  )

  deferred-owed :
      (acts : Ending → List Action) (r : Run) (e : Ending)
      → r.ending ≡ e
      → ((x : Ending) → tally one_sent (acts x) ≡ 0)
      → owed w r.trace 0 ≤ 0
      → owed w (deferred acts r).trace 0 ≤ 0
  deferred-owed acts r waiting e z h = rw e h
  deferred-owed acts r panicked e z h = rw e (append-owed r.trace (acts panicked) (z panicked) h)
  deferred-owed acts r (returned resp x) e z h =
      rw e (append-owed r.trace (acts (returned resp x)) (z (returned resp x)) h)

  slot-owed : {r : Run} → SlotRun cb req env r → owed w r.trace 0 ≤ 0
  slot-owed (no_limit e) = attempts_from-owed (rounds cb.max_retries) 0 none
  slot-owed (held e) =
      let run = after (acquired ∷ []) (attempts_from cb req env (rounds cb.max_retries) 0 none) in
      deferred-owed (λ _. released ∷ []) run run.ending refl (λ x. refl)
        (omega (arith, attempts_from-owed (rounds cb.max_retries) 0 none))
  slot-owed (gave_up x) = omega arith
  slot-owed (stuck e f) = omega arith

  -- What a call does on a breaker without a machine.
  pub begun-owed : cb.state ≡ none → owed w (with_breaker cb req env).trace 0 ≡ 0
  unfolding with_breaker
  begun-owed e = simp (e, with_breaker) (omega (arith, slot-owed (with_slot-SlotRun cb req env)))

  -- What an admitted call does after it has asked.
  pub entered-owed :
      (b : Breaker) (left : List Action)
      → cb.state ≡ some b
      → (allow env.asked_at b).0.error ≡ none
      → (with_breaker cb req env).trace ≡ asked env.asked_at ∷ left
      → owed w left 0 ≡ 0
  entered-owed b left e a t =
      let r = with_slot cb req env in
      let run = with_breaker_admitted cb req env b e a in
      let same : (deferred (tells cb req env b) r).trace ≡ left = cc in
      let inner = slot-owed (with_slot-SlotRun cb req env) in
      let all = deferred-owed (tells cb req env b) r r.ending refl (λ x. refl) inner in
      omega (arith, subst (λ l. owed w l 0 ≤ 0) same all)

pub token_grants :
    (cb : Circuit) (ch : Channel)
    → cb.tokens ≡ some ch
    → (a : Attempt) → 1 ≤ tally one_token (permitted cb a)
token_grants cb ch e a = simp (e) (omega arith)

pub attempt_grants : (cb : Circuit) (a : Attempt) → 1 ≤ tally one_attempt (permitted cb a)
attempt_grants cb a = elim (Option-cases cb.tokens) [
  | inl t ↦ simp (t) (omega arith)
  | inr (ch, t) ↦ simp (t) (omega arith)
]
