-- ===== src/Request/Layers.antt =====
-- What surrounds the loop of `Do`: the semaphore, the state machine and the default timeout. They
-- change no count of what the loop does.
use circuit_breaker.Base.{
  ◌≢◌, ℕ, ◌≡◌, refl, List, [], ◌∷◌, arith, Bool, not, ◌&&◌, Option, none, some, Option-cases,
  Bool-cases, inl, inr, ◌⊎◌, ap, ◌∙◌,
}
use circuit_breaker.Base.Int.{ℤ, pos, ltb_ℤ, eqb_ℤ}
use circuit_breaker.Errors.{Err}
use circuit_breaker.Breaker.{Outcome, Breaker, allow}
use circuit_breaker.Circuit.{Circuit, Channel}
use circuit_breaker.Request.{
  tells, Action, Request, Env, Run, Ending, returned, panicked, waiting, after, deferred, finish,
  asked, acquired, released, reported, timeout_set, timeout_tied, timeout_cancelled, attempts_from,
  rounds, with_slot, outcome_of, with_breaker, end_timeout, with_default_timeout, do_request,
  granted, blocked, cancelled, Slot,
}
use circuit_breaker.Request.Tally.{tally, tally-append}
use circuit_breaker.Request.Stages.{unfinished_at}

-- The two answers of the machine.
module _ (cb : Circuit) (req : Request) (env : Env) (b : Breaker)
    (machine : cb.state ≡ some b) where
  pub with_breaker_admitted :
      (allow env.asked_at b).0.error ≡ none
      → with_breaker cb req env
        ≡ after (asked env.asked_at ∷ []) (deferred (tells cb req env b) (with_slot cb req env))
  unfolding with_breaker
  with_breaker_admitted a = simp (machine, a, with_breaker) refl

  pub with_breaker_refused :
      (x : Err)
      → (allow env.asked_at b).0.error ≡ some x
      → with_breaker cb req env
        ≡ after (asked env.asked_at ∷ []) (finish (returned none (some x)) none)
  unfolding with_breaker
  with_breaker_refused x a = simp (machine, a, with_breaker) refl

-- The four ways of the semaphore.
pub data SlotRun (cb : Circuit) (req : Request) (env : Env) : Run → Type 0 where
  no_limit :
      cb.sem ≡ none → SlotRun cb req env (attempts_from cb req env (rounds cb.max_retries) 0 none)
  held :
      cb.sem ≢ none
      → SlotRun cb req env (
          deferred
            (λ _. released ∷ [])
            (after (acquired ∷ []) (attempts_from cb req env (rounds cb.max_retries) 0 none)))
  gave_up : (x : Err) → SlotRun cb req env (finish (returned none (some x)) none)
  stuck : cb.sem ≢ none → env.slot ≡ blocked → SlotRun cb req env (finish waiting none)

pub with_slot-SlotRun :
    (cb : Circuit) (req : Request) (env : Env) → SlotRun cb req env (with_slot cb req env)
unfolding with_slot
with_slot-SlotRun cb req env = elim (Option-cases cb.sem) [
  | inl e ↦ simp (e, with_slot) (no_limit e)
  | inr (c, e) ↦ slot env.slot refl c e
]
  where
    slot :
        (s : Slot)
        → env.slot ≡ s
        → (c : Channel) → cb.sem ≡ some c
        → SlotRun cb req env (with_slot cb req env)
    slot granted f c e = simp (e, f, with_slot) (held (λ n. absurd (cc)))
    slot (cancelled x) f c e = simp (e, f, with_slot) (gave_up x)
    slot blocked f c e = simp (e, f, with_slot) (stuck (λ n. absurd (cc)) f)

-- The weight counts nothing that a layer around the loop does.
pub record IsInner (w : Action → ℕ) : Type 0 where
  pub of_asked : (t : ℤ) → w (asked t) ≡ 0
  pub of_acquired : w acquired ≡ 0
  pub of_released : w released ≡ 0
  pub of_reported : (p : Bool) (g : ℕ) (t : ℤ) (o : Outcome) → w (reported p g t o) ≡ 0
  pub of_set : (d : ℤ) → w (timeout_set d) ≡ 0
  pub of_tied : w timeout_tied ≡ 0
  pub of_cancelled : w timeout_cancelled ≡ 0

pub deferred-at :
    (w : Action → ℕ) (acts : Ending → List Action) (r : Run) (e : Ending)
    → r.ending ≡ e
    → ((x : Ending) → tally w (acts x) ≡ 0)
    → (tally w (deferred acts r).trace ≡ tally w r.trace) × ((deferred acts r).ending ≡ r.ending)
deferred-at w acts r waiting e z = rw (e) (refl, refl)
deferred-at w acts r panicked e z =
    rw (e) (omega (arith, tally-append w r.trace (acts panicked), z panicked), refl)
deferred-at w acts r (returned resp x) e z =
    rw (e)
      (omega (arith, tally-append w r.trace (acts (returned resp x)), z (returned resp x)), refl)

tally_zero : (acts : List Action) → tally (λ _. 0) acts ≡ 0
tally_zero [] = refl
tally_zero (a ∷ acts) = omega (arith, tally_zero acts)

pub deferred-ending : (acts : Ending → List Action) (r : Run) → (deferred acts r).ending ≡ r.ending
deferred-ending acts r = (deferred-at (λ _. 0) acts r r.ending refl (λ x. tally_zero (acts x))).1

-- The two runs have the same inner counts.
unfoldable pub IsLike : Run → Run → Type 0
IsLike r s =
    (unfinished_at r.ending ≡ unfinished_at s.ending)
    × ((w : Action → ℕ) → IsInner w → tally w r.trace ≡ tally w s.trace)

after-IsLike :
    (a : Action) (r s : Run)
    → ((w : Action → ℕ) → IsInner w → w a ≡ 0)
    → IsLike r s
    → IsLike (after (a ∷ []) r) s
unfolding IsLike
after-IsLike a r s z h = (h.0, λ w i. omega (arith, z w i, h.1 w i))

deferred-IsLike :
    (acts : Ending → List Action) (r s : Run)
    → ((w : Action → ℕ) (e : Ending) → IsInner w → tally w (acts e) ≡ 0)
    → IsLike r s
    → IsLike (deferred acts r) s
unfolding IsLike
deferred-IsLike acts r s z h = (
  ap unfinished_at (deferred-ending acts r) ∙ h.0,
  λ w i. (deferred-at w acts r r.ending refl (λ x. z w x i)).0 ∙ h.1 w i,
)

module _ (cb : Circuit) (req : Request) (env : Env) where
  -- The loop ran, or nothing of it did.
  unfoldable pub FromLoop : Run → Type 0
  FromLoop r =
      IsLike r (attempts_from cb req env (rounds cb.max_retries) 0 none)
      ⊎ ((w : Action → ℕ) → IsInner w → tally w r.trace ≡ 0)

  after-FromLoop :
      (a : Action) (r : Run)
      → ((w : Action → ℕ) → IsInner w → w a ≡ 0)
      → FromLoop r
      → FromLoop (after (a ∷ []) r)
  unfolding FromLoop
  after-FromLoop a r z (inl h) = inl (after-IsLike a r _ z h)
  after-FromLoop a r z (inr h) = inr (λ w i. omega (arith, z w i, h w i))

  deferred-FromLoop :
      (acts : Ending → List Action) (r : Run)
      → ((w : Action → ℕ) (e : Ending) → IsInner w → tally w (acts e) ≡ 0)
      → FromLoop r
      → FromLoop (deferred acts r)
  unfolding FromLoop
  deferred-FromLoop acts r z (inl h) = inl (deferred-IsLike acts r _ z h)
  deferred-FromLoop acts r z (inr h) =
      inr (λ w i. (deferred-at w acts r r.ending refl (λ x. z w x i)).0 ∙ h w i)

  loop-FromLoop : FromLoop (attempts_from cb req env (rounds cb.max_retries) 0 none)
  unfolding FromLoop IsLike
  loop-FromLoop = inl (refl, λ w i. refl)

  -- A call that ends before the loop, or waits for its slot.
  idle-FromLoop : (e : Ending) (last : Option Err) → FromLoop (finish e last)
  unfolding FromLoop IsLike
  idle-FromLoop e last = inr (λ w i. refl)

  slot-FromLoop : {r : Run} → SlotRun cb req env r → FromLoop r
  slot-FromLoop (no_limit e) = loop-FromLoop
  slot-FromLoop (held e) =
      deferred-FromLoop (λ _. released ∷ []) _ (λ w x i. omega (arith, i.of_released))
        (after-FromLoop acquired _ (λ w i. i.of_acquired) loop-FromLoop)
  slot-FromLoop (gave_up x) = idle-FromLoop (returned none (some x)) none
  slot-FromLoop (stuck e f) = idle-FromLoop waiting none

  with_slot-FromLoop : FromLoop (with_slot cb req env)
  with_slot-FromLoop = slot-FromLoop (with_slot-SlotRun cb req env)

  with_breaker-FromLoop : FromLoop (with_breaker cb req env)
  unfolding with_breaker
  with_breaker-FromLoop = elim (Option-cases cb.state) [
    | inl e ↦ simp (e, with_breaker) with_slot-FromLoop
    | inr (b, e) ↦
        simp (e, with_breaker)
          (after-FromLoop (asked env.asked_at) _ (λ w i. i.of_asked env.asked_at)
            (elim (Option-cases ((allow env.asked_at b).0.error)) [
              | inl a ↦ simp (a) (
                  deferred-FromLoop (tells cb req env b) (with_slot cb req env)
                    (λ w x i. omega (
                      arith,
                      i.of_reported ((allow env.asked_at b).0.probe) ((allow env.asked_at b).0.gen)
                          env.reported_at (outcome_of cb req env ((with_slot cb req env).last) x),
                    ))
                    with_slot-FromLoop)
              | inr (x, a) ↦ simp (a) (idle-FromLoop (returned none (some x)) none)
            ]))
  ]

  end_timeout-inner :
      (w : Action → ℕ) (e : Ending) → IsInner w → tally w (end_timeout cb req env e) ≡ 0
  end_timeout-inner w waiting i = omega (arith, i.of_cancelled)
  end_timeout-inner w panicked i = omega (arith, i.of_cancelled)
  end_timeout-inner w (returned none x) i = omega (arith, i.of_cancelled)
  end_timeout-inner w (returned (some r) (some x)) i = omega (arith, i.of_cancelled)
  end_timeout-inner w (returned (some r) none) i = ground (arith, i.of_cancelled, i.of_tied)

  with_default_timeout-FromLoop : (t : ℤ) → FromLoop (with_default_timeout cb req env t)
  unfolding with_default_timeout
  with_default_timeout-FromLoop t =
      elim (Bool-cases
        (ltb_ℤ (pos 0) cb.default_timeout && (eqb_ℤ t (pos 0) && not req.has_deadline))) [
          | inl e ↦
              simp (e, with_default_timeout)
                (after-FromLoop (timeout_set cb.default_timeout) _
                  (λ w i. i.of_set cb.default_timeout)
                  (deferred-FromLoop (end_timeout cb req env) _ end_timeout-inner
                    with_breaker-FromLoop))
          | inr e ↦ simp (e, with_default_timeout) with_breaker-FromLoop
        ]

  pub do_request-FromLoop : (client : Option ℤ) → FromLoop (do_request cb (some req) client env)
  unfolding do_request
  do_request-FromLoop none = with_default_timeout-FromLoop (pos 0)
  do_request-FromLoop (some t) = with_default_timeout-FromLoop t
