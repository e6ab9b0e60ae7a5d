-- ===== src/Request/Outside.antt =====
-- The loop of `Do` neither takes nor gives back a slot, and does not report to the breaker.
use circuit_breaker.Base.{
  ℕ, zero, suc, ◌≡◌, refl, List, [], ◌∷◌, ◌++◌, arith, Bool, if◌then◌else◌, Option, none, some,
  Option-cases, inl, inr,
}
use circuit_breaker.Base.Int.{ℤ}
use circuit_breaker.Errors.{Err}
use circuit_breaker.Breaker.{status_fails}
use circuit_breaker.Endpoint.{succeed, fail, attempt}
use circuit_breaker.Circuit.{Circuit}
use circuit_breaker.Bucket.{wait_for_token}
use circuit_breaker.RetryAfter.{parse_retry_after, wait_retry_after_gate}
use circuit_breaker.Request.{
  Action, Request, Response, Env, Attempt, Round, Transport, leaves, goes_on, responds, fails,
  panics, hangs, sent, recorded, took_token, rewound, refuse, pause, retry_after, on_response,
  on_failure, send, rewind_and_send, with_token, attempt_once, attempts_from, is_more,
}
use circuit_breaker.Request.Tally.{tally, tally-append, outer}
use circuit_breaker.Request.Stages.{count, count-first}

module _ (i j k l m : ℕ) (cb : Circuit) (req : Request) (env : Env) (a : Attempt) (more : Bool)
    (n : ℕ) where
  refuse-outer :
      (e : Err) (last : Option Err)
      → count (outer i j k l m) (refuse cb req env a more n e last) ≡ 0
  unfolding refuse
  refuse-outer e last = ground (arith)

  retry_after-outer :
      (r : Response) (delay : ℤ) (last : Option Err)
      → count (outer i j k l m) (retry_after cb req env a more n r delay last) ≡ 0
  unfolding retry_after pause
  retry_after-outer r delay last = elim (Option-cases a.interrupted) [
    | inl x ↦ ground (arith)
    | inr (x, t) ↦ ground (arith)
  ]

  on_response-outer :
      (r : Response) (last : Option Err)
      → count (outer i j k l m) (on_response cb req env a more n r last) ≡ 0
  unfolding on_response
  on_response-outer r last =
      elim (Option-cases (parse_retry_after env.parse_time r.retry_after a.header_at)) [
        | inl p ↦ ground (arith)
        | inr (delay, p) ↦
            let counted =
              if status_fails (some r.status) cb.status_fail_min
              then fail a.start a.done_at
              else succeed a.start a.done_at in
            let q =
              count-first (outer i j k l m) (recorded counted ∷ [])
                (retry_after cb req env a more n r delay last) in
            ground (arith, q, retry_after-outer r delay last)
      ]

  on_failure-outer : (e : Err) → count (outer i j k l m) (on_failure cb req env a more n e) ≡ 0
  unfolding on_failure pause
  on_failure-outer e = elim (Option-cases a.interrupted) [
    | inl x ↦ ground (arith)
    | inr (x, t) ↦ ground (arith)
  ]

  send-outer :
      (last : Option Err) (t : Transport)
      → a.transport ≡ t
      → count (outer i j k l m) (send cb req env a more n last) ≡ 0
  unfolding send
  send-outer last panics e = simp (e, send) (omega (arith))
  send-outer last hangs e = simp (e, send) (omega (arith))
  send-outer last (responds r) e =
      let q = count-first (outer i j k l m) (sent ∷ []) (on_response cb req env a more n r last) in
      simp (e, send) (omega (arith, q, on_response-outer r last))
  send-outer last (fails x) e =
      let q = count-first (outer i j k l m) (sent ∷ []) (on_failure cb req env a more n x) in
      simp (e, send) (omega (arith, q, on_failure-outer x))

  rewind_and_send-outer :
      (last : Option Err) → count (outer i j k l m) (rewind_and_send cb req env a more n last) ≡ 0
  unfolding rewind_and_send
  rewind_and_send-outer last =
      let s = send-outer last a.transport refl in
      let q = count-first (outer i j k l m) (rewound ∷ []) (send cb req env a more n last) in
      elim (Option-cases a.body_err) [
        | inl b ↦ ground (arith, s, q)
        | inr (x, b) ↦ ground (arith, s)
      ]

  with_token-outer :
      (last : Option Err) → count (outer i j k l m) (with_token cb req env a more n last) ≡ 0
  unfolding with_token
  with_token-outer last =
      elim (Option-cases (
        wait_for_token a.ctx_err a.woken
          (elim cb.tokens [ none ↦ none | some _ ↦ some a.bucket ]))) [
            | inl w ↦ simp (w, with_token) refl
            | inr ((none, c), w') ↦
                let acts : List Action = elim cb.tokens [ none ↦ [] | some _ ↦ took_token ∷ [] ] in
                let now : List Action = recorded (attempt a.start a.attempted_at) ∷ [] in
                let taken : tally (outer i j k l m) acts ≡ 0 = took in
                let r = rewind_and_send-outer last in
                let q =
                  count-first (outer i j k l m) (acts ++ now)
                    (rewind_and_send cb req env a more n last) in
                simp (w', with_token)
                  (omega (arith, q, r, taken, tally-append (outer i j k l m) acts now))
            | inr ((some e, c), w) ↦ simp (w, with_token) (refuse-outer e last)
          ]
    where
      took : tally (outer i j k l m) (elim cb.tokens [ none ↦ [] | some _ ↦ took_token ∷ [] ]) ≡ 0
      took = elim (Option-cases cb.tokens) [
        | inl t ↦ simp (t) refl
        | inr (c, t) ↦ simp (t) (omega (arith))
      ]

  attempt_once-outer :
      (last : Option Err) → count (outer i j k l m) (attempt_once cb req env a more n last) ≡ 0
  unfolding attempt_once
  attempt_once-outer last =
      elim (Option-cases (wait_retry_after_gate cb.retry_after_max a.gate_rounds)) [
        | inl w ↦ simp (w, attempt_once) refl
        | inr (none, w) ↦ simp (w, attempt_once) (with_token-outer last)
        | inr (some e, w) ↦ simp (w, attempt_once) (refuse-outer e last)
      ]

module _ (i j k l m : ℕ) (cb : Circuit) (req : Request) (env : Env) where
  round-outer :
      (left n : ℕ) (last : Option Err) (r : Round)
      → ((e : Option Err)
          → tally (outer i j k l m) (attempts_from cb req env left (suc n) e).trace ≡ 0)
      → attempt_once cb req env (env.attempts n) (is_more left) n last ≡ r
      → count (outer i j k l m) r ≡ 0
      → tally (outer i j k l m) (attempts_from cb req env (suc left) n last).trace ≡ 0
  unfolding attempts_from
  round-outer left n last (leaves acts ending e) ih q s = simp (q, attempts_from) s
  round-outer left n last (goes_on acts e) ih q s =
      simp (q, attempts_from)
        (omega (
          arith,
          ih e,
          s,
          tally-append (outer i j k l m) acts (attempts_from cb req env left (suc n) e).trace,
        ))

  pub attempts_from-outer :
      (left n : ℕ) (last : Option Err)
      → tally (outer i j k l m) (attempts_from cb req env left n last).trace ≡ 0
  unfolding attempts_from
  attempts_from-outer zero n last = refl
  attempts_from-outer (suc left) n last =
      round-outer left n last _ (attempts_from-outer left (suc n)) refl
        (attempt_once-outer i j k l m cb req env (env.attempts n) (is_more left) n last)
