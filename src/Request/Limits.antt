-- ===== src/Request/Limits.antt =====
-- When `Do` must not send again.
use circuit_breaker.Base.{
  ℕ, zero, suc, ◌≤◌, ◌≡◌, refl, [], ◌∷◌, arith, true, false, if◌then◌else◌, Option, none, some,
  Option-cases, inl, inr, ◌⊎◌, ◌∙◌,
}
use circuit_breaker.Base.Int.{ℤ}
use circuit_breaker.Errors.{Err}
use circuit_breaker.Breaker.{status_fails}
use circuit_breaker.Endpoint.{succeed, fail}
use circuit_breaker.Circuit.{Circuit}
use circuit_breaker.Bucket.{wait_for_token}
use circuit_breaker.RetryAfter.{parse_retry_after, wait_retry_after_gate}
use circuit_breaker.Request.{
  Request, Response, Env, Attempt, Run, Round, Transport, leaves, goes_on, responds, fails, panics,
  hangs, sent, recorded, refuse, pause, retry_after, on_response, on_failure, send, rewind_and_send,
  with_token, attempt_once, attempts_from, is_more, rounds, do_request,
}
use circuit_breaker.Request.Tally.{tally, tally-append, one_sent}
use circuit_breaker.Request.Stages.{exits, exits-first, attempt_once-Settles, Settles}
use circuit_breaker.Request.Layers.{IsLike, FromLoop, do_request-FromLoop}
use circuit_breaker.Request.Accounting.{one_sent-IsInner}

-- A body that cannot be sent twice ends the loop in a round that another could follow.
module _ (cb : Circuit) (req : Request) (env : Env) (a : Attempt) (n : ℕ)
    (body : req.has_body ≡ true) (once : req.can_rewind ≡ false) where
  retry_after-exits :
      (r : Response) (delay : ℤ) (last : Option Err)
      → exits (retry_after cb req env a true n r delay last) ≡ 1
  unfolding retry_after pause
  retry_after-exits r delay last = elim (Option-cases a.interrupted) [
    | inl i ↦ ground arith
    | inr (x, i) ↦ ground arith
  ]

  on_response-exits :
      (r : Response) (last : Option Err) → exits (on_response cb req env a true n r last) ≡ 1
  unfolding on_response
  on_response-exits r last =
      elim (Option-cases (parse_retry_after env.parse_time r.retry_after a.header_at)) [
        | inl p ↦ ground arith
        | inr (delay, p) ↦
            let counted =
              if status_fails (some r.status) cb.status_fail_min
              then fail a.start a.done_at
              else succeed a.start a.done_at in
            let q =
              exits-first (recorded counted ∷ []) (retry_after cb req env a true n r delay last) in
            ground (arith, q, retry_after-exits r delay last)
      ]

  on_failure-exits : (e : Err) → exits (on_failure cb req env a true n e) ≡ 1
  unfolding on_failure
  on_failure-exits e = ground arith

  send-exits :
      (last : Option Err) (t : Transport)
      → a.transport ≡ t
      → exits (send cb req env a true n last) ≡ 1
  unfolding send
  send-exits last panics e = simp (e, send) refl
  send-exits last hangs e = simp (e, send) refl
  send-exits last (responds r) e =
      let q = exits-first (sent ∷ []) (on_response cb req env a true n r last) in
      simp (e, send) (omega (arith, q, on_response-exits r last))
  send-exits last (fails x) e =
      let q = exits-first (sent ∷ []) (on_failure cb req env a true n x) in
      simp (e, send) (omega (arith, q, on_failure-exits x))

  rewind_and_send-exits : (last : Option Err) → exits (rewind_and_send cb req env a true n last) ≡ 1
  unfolding rewind_and_send
  rewind_and_send-exits last = ground (arith, send-exits last a.transport refl)

  with_token-exits : (last : Option Err) → exits (with_token cb req env a true n last) ≡ 1
  unfolding with_token refuse
  with_token-exits last =
      elim (Option-cases (
        wait_for_token a.ctx_err a.woken
          (elim cb.tokens [ none ↦ none | some _ ↦ some a.bucket ]))) [
            | inl w ↦ simp (w, with_token) refl
            | inr ((none, c), w) ↦
                simp (w, with_token)
                  (exits-first _ (rewind_and_send cb req env a true n last)
                    ∙ rewind_and_send-exits last)
            | inr ((some e, c), w) ↦ simp (w, with_token) (ground arith)
          ]

  pub attempt_once-exits : (last : Option Err) → exits (attempt_once cb req env a true n last) ≡ 1
  unfolding attempt_once refuse
  attempt_once-exits last =
      elim (Option-cases (wait_retry_after_gate cb.retry_after_max a.gate_rounds)) [
        | inl w ↦ simp (w, attempt_once) refl
        | inr (none, w) ↦ simp (w, attempt_once) (with_token-exits last)
        | inr (some e, w) ↦ simp (w, attempt_once) (ground arith)
      ]

loop_once :
    (cb : Circuit) (req : Request) (env : Env) (left n : ℕ) (last : Option Err) (r : Round)
    → attempt_once cb req env (env.attempts n) (is_more left) n last ≡ r
    → Settles r
    → left ≡ 0 ⊎ exits r ≡ 1
    → tally one_sent (attempts_from cb req env (suc left) n last).trace ≤ 1
unfolding attempts_from Settles
loop_once cb req env left n last (leaves acts ending e) q s x =
    simp (q, attempts_from) (omega (arith, s.0, s.1, s.2))
loop_once cb req env zero n last (goes_on acts e) q s x =
    simp (q, attempts_from) (omega (arith, s.0, s.1, s.2, tally-append one_sent acts []))
loop_once cb req env (suc left) n last (goes_on acts e) q s (inl x) = absurd (omega arith)
loop_once cb req env (suc left) n last (goes_on acts e) q s (inr x) = absurd (omega arith)

attempts_from_once :
    (cb : Circuit) (req : Request) (env : Env) (left : ℕ)
    → req.has_body ≡ true
    → req.can_rewind ≡ false
    → tally one_sent (attempts_from cb req env left 0 none).trace ≤ 1
unfolding attempts_from
attempts_from_once cb req env zero b o = omega arith
attempts_from_once cb req env (suc zero) b o =
    loop_once cb req env 0 0 none _ refl
      (attempt_once-Settles cb req env (env.attempts 0) false 0 none) (inl refl)
attempts_from_once cb req env (suc (suc left)) b o =
    loop_once cb req env (suc left) 0 none _ refl
      (attempt_once-Settles cb req env (env.attempts 0) true 0 none)
      (inr (attempt_once-exits cb req env (env.attempts 0) 0 b o none))

like_once : (r s : Run) → IsLike r s → tally one_sent s.trace ≤ 1 → tally one_sent r.trace ≤ 1
unfolding IsLike
like_once r s l h = omega (arith, l.1 one_sent one_sent-IsInner, h)

-- A request whose body cannot be obtained again (`Body` set, `GetBody` nil) is sent at most once,
-- whatever the transport, the headers, the retry policy and the limit on retries are.
pub do_request_sends_once :
    (cb : Circuit) (req : Request) (client : Option ℤ) (env : Env)
    → req.has_body ≡ true
    → req.can_rewind ≡ false
    → tally one_sent (do_request cb (some req) client env).trace ≤ 1
unfolding FromLoop
do_request_sends_once cb req client env b o = elim (do_request-FromLoop cb req env client) [
  | inl l ↦ like_once _ _ l (attempts_from_once cb req env (rounds cb.max_retries) b o)
  | inr z ↦ omega (arith, z one_sent one_sent-IsInner)
]
