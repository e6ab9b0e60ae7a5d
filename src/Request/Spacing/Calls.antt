-- ===== src/Request/Spacing/Calls.antt =====
-- How long a call of `Do` sleeps between its sends.
use circuit_breaker.Base.{
  ℕ, zero, suc, ◌+◌, ◌*◌, ◌≤◌, ◌≡◌, refl, false, not, ◌&&◌, List, [], ◌∷◌, arith, Option, none,
  some, Option-cases, Bool-cases, inl, inr,
}
use circuit_breaker.Base.Int.{ℤ, pos, ltb_ℤ, eqb_ℤ, ◌≤ℤ◌}
use circuit_breaker.Errors.{Err}
use circuit_breaker.Circuit.{Circuit}
use circuit_breaker.Options.{backoff_for}
use circuit_breaker.Request.{
  Action, returned, panicked, waiting, Request, Env, Round, leaves, goes_on, Ending, attempt_once,
  attempts_from, is_more,
}
use circuit_breaker.Request.Tally.{tally, one_sent}
use circuit_breaker.Request.{
  Action, acquired, released, Run, after, deferred, rounds, with_slot, with_breaker,
  with_default_timeout, do_request, tells, end_timeout,
}
use circuit_breaker.Breaker.{allow}
use circuit_breaker.Request.Layers.{
  with_breaker_admitted, with_breaker_refused, SlotRun, no_limit, held, gave_up, stuck,
  with_slot-SlotRun,
}
use circuit_breaker.Request.Spacing.{nap, IsSpaced, append-IsSpaced, IsSpacedRound, IsSpaced-sum}
use circuit_breaker.Request.Spacing.Rounds.{attempt_once-IsSpacedRound}

module _ (l : ℕ) (cb : Circuit) (req : Request) (env : Env)
    (floor : (n : ℕ) → pos l ≤ℤ backoff_for (env.attempts n).draw cb n) where
  last_trace :
      (left n : ℕ) (last : Option Err)
      → is_more left ≡ false
      → (attempts_from cb req env left n last).trace ≡ []
  unfolding attempts_from
  last_trace zero n last e = refl
  last_trace (suc left) n last e = absurd (cc)

  round-IsSpaced :
      (left n : ℕ) (last : Option Err) (r : Round)
      → ((e : Option Err) → IsSpaced l 0 (attempts_from cb req env left (suc n) e).trace)
      → attempt_once cb req env (env.attempts n) (is_more left) n last ≡ r
      → IsSpacedRound l 0 (is_more left) r
      → IsSpaced l 0 (attempts_from cb req env (suc left) n last).trace
  unfolding attempts_from IsSpacedRound
  round-IsSpaced left n last (leaves acts ending e) ih q s = simp (q, attempts_from) s
  round-IsSpaced left n last (goes_on acts e) ih q s =
      simp (q, attempts_from) (s _ (ih e) (last_trace left (suc n) e))

  attempts_from-IsSpaced :
      (left n : ℕ) (last : Option Err) → IsSpaced l 0 (attempts_from cb req env left n last).trace
  unfolding attempts_from
  attempts_from-IsSpaced zero n last = tt
  attempts_from-IsSpaced (suc left) n last =
      round-IsSpaced left n last _ (attempts_from-IsSpaced left (suc n)) refl
        (attempt_once-IsSpacedRound l cb req env (env.attempts n) (is_more left) n (floor n) last)

  deferred-IsSpaced :
      (acts : Ending → List Action) (r : Run) (e : Ending)
      → r.ending ≡ e
      → ((x : Ending) → tally one_sent (acts x) ≡ 0)
      → IsSpaced l 0 r.trace
      → IsSpaced l 0 (deferred acts r).trace
  deferred-IsSpaced acts r waiting e z h = rw e h
  deferred-IsSpaced acts r panicked e z h =
      rw e (append-IsSpaced l r.trace (acts panicked) 0 h (z panicked))
  deferred-IsSpaced acts r (returned resp x) e z h =
      rw e (append-IsSpaced l r.trace (acts (returned resp x)) 0 h (z (returned resp x)))

  slot-IsSpaced : {r : Run} → SlotRun cb req env r → IsSpaced l 0 r.trace
  slot-IsSpaced (no_limit e) = attempts_from-IsSpaced (rounds cb.max_retries) 0 none
  slot-IsSpaced (held e) =
      let loop = attempts_from cb req env (rounds cb.max_retries) 0 none in
      deferred-IsSpaced (λ _. released ∷ []) (after (acquired ∷ []) loop) loop.ending refl
        (λ x. refl) (tt, attempts_from-IsSpaced (rounds cb.max_retries) 0 none)
  slot-IsSpaced (gave_up x) = tt
  slot-IsSpaced (stuck e f) = tt

  with_breaker-IsSpaced : IsSpaced l 0 (with_breaker cb req env).trace
  unfolding with_breaker
  with_breaker-IsSpaced =
      let inner = slot-IsSpaced (with_slot-SlotRun cb req env) in
      elim (Option-cases cb.state) [
        | inl e ↦ simp (e, with_breaker) inner
        | inr (b, e) ↦ elim (Option-cases ((allow env.asked_at b).0.error)) [
          | inl a ↦ rw (with_breaker_admitted cb req env b e a) (
            tt,
            deferred-IsSpaced (tells cb req env b) (with_slot cb req env) _ refl (λ x. refl) inner,
          )
          | inr (x, a) ↦ rw (with_breaker_refused cb req env b e x a) (tt, tt)
        ]
      ]

  end_timeout_unsent : (e : Ending) → tally one_sent (end_timeout cb req env e) ≡ 0
  end_timeout_unsent e = ground arith

  with_default_timeout-IsSpaced : (t : ℤ) → IsSpaced l 0 (with_default_timeout cb req env t).trace
  unfolding with_default_timeout
  with_default_timeout-IsSpaced t =
      elim (Bool-cases
        (ltb_ℤ (pos 0) cb.default_timeout && (eqb_ℤ t (pos 0) && not req.has_deadline))) [
          | inl e ↦
              simp (e, with_default_timeout)
                (
                  tt,
                  deferred-IsSpaced (end_timeout cb req env) (with_breaker cb req env) _ refl
                      end_timeout_unsent with_breaker-IsSpaced,
                )
          | inr e ↦ simp (e, with_default_timeout) with_breaker-IsSpaced
        ]

-- A call of `Do` does not hammer its server. If every backoff of the call is `l` ns or more, then
-- between any two sends of the call, after a failure or a Retry-After, it has slept `l` ns or more
-- in sum; and all its sleeps together last at least `l` ns for each send after the first.
pub do_request-IsSpaced :
    (cb : Circuit) (req : Option Request) (client : Option ℤ) (env : Env) (l : ℕ)
    → ((n : ℕ) → pos l ≤ℤ backoff_for (env.attempts n).draw cb n)
    → let acts = (do_request cb req client env).trace in
      IsSpaced l 0 acts × (l * tally one_sent acts ≤ tally nap acts + l)
unfolding do_request
do_request-IsSpaced cb none client env l floor = (tt, omega arith)
do_request-IsSpaced cb (some req) none env l floor =
    let s = with_default_timeout-IsSpaced l cb req env floor (pos 0) in
    (s, omega (arith, IsSpaced-sum l _ 0 (omega arith) s))
do_request-IsSpaced cb (some req) (some t) env l floor =
    let s = with_default_timeout-IsSpaced l cb req env floor t in
    (s, omega (arith, IsSpaced-sum l _ 0 (omega arith) s))
