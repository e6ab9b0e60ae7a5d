-- ===== src/Request/Guards.antt =====
-- The slot of the semaphore and the report to the breaker.
use circuit_breaker.Base.{
  ℕ, ◌≤◌, ◌≡◌, ◌≢◌, refl, List, [], ◌∷◌, ◌++◌, arith, not, ◌&&◌, Option, none, some, Option-cases,
  Bool-cases, inl, inr, ◌∙◌, sym,
}
use circuit_breaker.Base.Int.{ℤ, pos, ltb_ℤ, eqb_ℤ}
use circuit_breaker.Breaker.{allow, Breaker}
use circuit_breaker.Circuit.{Circuit}
use circuit_breaker.Request.{
  tells, reported, outcome_of, Action, Request, Env, Run, Ending, returned, panicked, waiting,
  asked, acquired, released, after, deferred, attempts_from, rounds, with_slot, with_breaker,
  timeout_set, end_timeout, with_default_timeout, do_request,
}
use circuit_breaker.Request.Tally.{
  outer, tally, tally-append, one_acquired, one_released, one_reported,
}
use circuit_breaker.Request.Layers.{
  SlotRun, no_limit, held, gave_up, stuck, with_slot-SlotRun, deferred-at,
}
use circuit_breaker.Request.Outside.{attempts_from-outer}

-- The slot is taken at most once, kept by a call that has not come back and given back by one that has.
unfoldable pub Frees : Run → Type 0
Frees r =
    (tally one_acquired r.trace ≤ 1)
    × (r.ending ≡ waiting → tally one_released r.trace ≡ 0)
    × (r.ending ≢ waiting → tally one_acquired r.trace ≡ tally one_released r.trace)

after-Frees :
    (a : Action) (r : Run)
    → one_acquired a ≡ 0
    → one_released a ≡ 0
    → Frees r
    → Frees (after (a ∷ []) r)
unfolding Frees
after-Frees a r p q f =
    (omega (arith, p, f.0), λ e. omega (arith, q, f.1 e), λ e. omega (arith, p, q, f.2 e))

deferred-Frees :
    (acts : Ending → List Action) (r : Run)
    → ((e : Ending) → tally one_acquired (acts e) ≡ 0)
    → ((e : Ending) → tally one_released (acts e) ≡ 0)
    → Frees r
    → Frees (deferred acts r)
unfolding Frees
deferred-Frees acts r p q f =
    let c = deferred-at one_acquired acts r r.ending refl p in
    let d = deferred-at one_released acts r r.ending refl q in
    (
      omega (arith, c.0, f.0),
      λ e. omega (arith, d.0, f.1 (sym c.1 ∙ e)),
      λ e. omega (arith, c.0, d.0, f.2 (λ x. e (c.1 ∙ x))),
    )

pub told :
    (acts : Ending → List Action) (r : Run) (e : Ending)
    → r.ending ≡ e
    → r.ending ≢ waiting
    → (deferred acts r).trace ≡ r.trace ++ acts r.ending
told acts r waiting e n = absurd (n e)
told acts r panicked e n = rw (e) refl
told acts r (returned resp x) e n = rw (e) refl

held-Frees :
    (r : Run) (e : Ending)
    → r.ending ≡ e
    → tally one_acquired r.trace ≡ 0
    → tally one_released r.trace ≡ 0
    → Frees (deferred (λ _. released ∷ []) (after (acquired ∷ []) r))
unfolding Frees
held-Frees r waiting e a b =
    simp (e) (omega (arith, a), λ x. omega (arith, b), λ x. absurd (x refl))
held-Frees r panicked e a b =
    let c = tally-append one_acquired r.trace (released ∷ []) in
    let d = tally-append one_released r.trace (released ∷ []) in
    simp (e) (omega (arith, a, c), λ x. absurd (cc), λ _. omega (arith, a, b, c, d))
held-Frees r (returned resp x) e a b =
    let c = tally-append one_acquired r.trace (released ∷ []) in
    let d = tally-append one_released r.trace (released ∷ []) in
    simp (e) (omega (arith, a, c), λ y. absurd (cc), λ _. omega (arith, a, b, c, d))

none-Frees : (r : Run) → tally one_acquired r.trace ≡ 0 → tally one_released r.trace ≡ 0 → Frees r
unfolding Frees
none-Frees r a b = (omega (arith, a), λ x. b, λ x. omega (arith, a, b))

module _ (cb : Circuit) (req : Request) (env : Env) where
  slot-Frees : {r : Run} → SlotRun cb req env r → Frees r
  slot-Frees (no_limit e) =
      none-Frees _ (attempts_from-outer 1 0 0 0 0 cb req env (rounds cb.max_retries) 0 none)
        (attempts_from-outer 0 1 0 0 0 cb req env (rounds cb.max_retries) 0 none)
  slot-Frees (held e) =
      held-Frees _ _ refl (attempts_from-outer 1 0 0 0 0 cb req env (rounds cb.max_retries) 0 none)
        (attempts_from-outer 0 1 0 0 0 cb req env (rounds cb.max_retries) 0 none)
  slot-Frees (gave_up x) = none-Frees _ refl refl
  slot-Frees (stuck e f) = none-Frees _ refl refl

  with_slot-Frees : Frees (with_slot cb req env)
  with_slot-Frees = slot-Frees (with_slot-SlotRun cb req env)

  pub with_breaker-Frees : Frees (with_breaker cb req env)
  unfolding with_breaker
  with_breaker-Frees = elim (Option-cases cb.state) [
    | inl e ↦ simp (e, with_breaker) with_slot-Frees
    | inr (b, e) ↦
        simp (e, with_breaker)
          (after-Frees (asked env.asked_at) _ refl refl
            (elim (Option-cases ((allow env.asked_at b).0.error)) [
              | inl a ↦ simp (a) (
                  deferred-Frees (tells cb req env b) (with_slot cb req env) (λ x. refl) (λ x. refl)
                    with_slot-Frees)
              | inr (x, a) ↦ simp (a) (none-Frees _ refl refl)
            ]))
  ]

  end_acquired : (e : Ending) → tally one_acquired (end_timeout cb req env e) ≡ 0
  end_acquired waiting = refl
  end_acquired panicked = refl
  end_acquired (returned none x) = refl
  end_acquired (returned (some r) (some x)) = refl
  end_acquired (returned (some r) none) = ground arith

  end_released : (e : Ending) → tally one_released (end_timeout cb req env e) ≡ 0
  end_released waiting = refl
  end_released panicked = refl
  end_released (returned none x) = refl
  end_released (returned (some r) (some x)) = refl
  end_released (returned (some r) none) = ground arith

  with_default_timeout-Frees : (t : ℤ) → Frees (with_default_timeout cb req env t)
  unfolding with_default_timeout
  with_default_timeout-Frees t =
      elim (Bool-cases
        (ltb_ℤ (pos 0) cb.default_timeout && (eqb_ℤ t (pos 0) && not req.has_deadline))) [
          | inl e ↦
              simp (e, with_default_timeout)
                (after-Frees (timeout_set cb.default_timeout) _ refl refl (
                  deferred-Frees (end_timeout cb req env) _ end_acquired end_released
                    with_breaker-Frees))
          | inr e ↦ simp (e, with_default_timeout) with_breaker-Frees
        ]

  slot-outer : {r : Run} (k l m : ℕ) → SlotRun cb req env r → tally (outer 0 0 k l m) r.trace ≡ 0
  slot-outer k l m (no_limit e) =
      attempts_from-outer 0 0 k l m cb req env (rounds cb.max_retries) 0 none
  slot-outer k l m (held e) =
      let run = after (acquired ∷ []) (attempts_from cb req env (rounds cb.max_retries) 0 none) in
      let q = deferred-at (outer 0 0 k l m) (λ _. released ∷ []) run run.ending refl (λ x. refl) in
      omega (arith, q.0, attempts_from-outer 0 0 k l m cb req env (rounds cb.max_retries) 0 none)
  slot-outer k l m (gave_up x) = refl
  slot-outer k l m (stuck e f) = refl

  -- Inside the semaphore the machine is neither asked nor told.
  pub with_slot-outer : (k l m : ℕ) → tally (outer 0 0 k l m) (with_slot cb req env).trace ≡ 0
  with_slot-outer k l m = slot-outer k l m (with_slot-SlotRun cb req env)

  -- Within the default timeout, a call that the breaker admitted and that has come back or panicked has
  -- told the breaker its outcome exactly once, with the generation and the probe mark of its admission,
  -- as the last thing that it does.
  pub with_breaker_reports :
      (b : Breaker)
      → cb.state ≡ some b
      → (allow env.asked_at b).0.error ≡ none
      → (with_slot cb req env).ending ≢ waiting
      → ((with_breaker cb req env).trace
          ≡ asked env.asked_at ∷ (with_slot cb req env).trace
            ++ reported
                (allow env.asked_at b).0.probe
                (allow env.asked_at b).0.gen
                env.reported_at
                (outcome_of cb req env (with_slot cb req env).last (with_slot cb req env).ending)
              ∷ [])
        × (tally one_reported (with_breaker cb req env).trace ≡ 1)
  unfolding with_breaker
  with_breaker_reports b e a n =
      let r = with_slot cb req env in
      let q = told (tells cb req env b) r r.ending refl n in
      let t = tally-append one_reported r.trace (tells cb req env b r.ending) in
      simp (e, a, with_breaker, q) (refl, omega (arith, t, with_slot-outer 1 0 0))

-- With a limit on concurrency, a call of `Do` takes its slot at most once, keeps it while it waits
-- inside, and has given it back exactly if it took it once it has returned or panicked.
pub do_request-Frees :
    (cb : Circuit) (req : Request) (client : Option ℤ) (env : Env)
    → Frees (do_request cb (some req) client env)
unfolding do_request
do_request-Frees cb req none env = with_default_timeout-Frees cb req env (pos 0)
do_request-Frees cb req (some t) env = with_default_timeout-Frees cb req env t
