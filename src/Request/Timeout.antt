-- ===== src/Request/Timeout.antt =====
-- What the actions of `Do` make of the context of `WithDefaultTimeout` when its deadline does not pass.
use circuit_breaker.Base.{
  ℕ, ◌≡◌, ◌≢◌, refl, sym, ap, ◌∙◌, Bool, true, false, not, ◌&&◌, Option, none, some, List, [], ◌∷◌,
  ◌++◌, arith, Option-cases, Bool-cases, inl, inr,
}
use circuit_breaker.Base.Int.{ℤ, pos, ltb_ℤ, eqb_ℤ}
use circuit_breaker.Breaker.{allow}
use circuit_breaker.Circuit.{Circuit}
use circuit_breaker.Request.{
  Action, timeout_set, timeout_cancelled, timeout_tied, Request, Env, Run, Ending, returned,
  panicked, waiting, tells, after, deferred, with_slot, with_breaker, end_timeout,
  with_default_timeout, do_request,
}
use circuit_breaker.Request.Context.{
  Context, unset, running, cancelled, act_on, undisturbed, left_context,
}
use circuit_breaker.Request.Tally.{tally, tally-append, outer}
use circuit_breaker.Request.Layers.{
  deferred-at, deferred-ending, with_breaker_admitted, with_breaker_refused,
}
use circuit_breaker.Request.Guards.{with_slot-outer, told}

-- Any action on the timeout counts.
abbrev pub one_timeout : Action → ℕ
one_timeout = outer 0 0 0 0 1

pub act_on-same : (a : Action) (c : Context) → one_timeout a ≡ 0 → act_on a c ≡ c
act_on-same a c h = ground arith

undisturbed-same :
    (acts : List Action) (c : Context) → tally one_timeout acts ≡ 0 → undisturbed acts c ≡ c
undisturbed-same [] c h = refl
undisturbed-same (a ∷ acts) c h =
    ap (undisturbed acts) (act_on-same a c (omega (arith, h)))
    ∙ undisturbed-same acts c (omega (arith, h))

pub undisturbed-append :
    (xs ys : List Action) (c : Context)
    → undisturbed (xs ++ ys) c ≡ undisturbed ys (undisturbed xs c)
undisturbed-append [] ys c = refl
undisturbed-append (x ∷ xs) ys c = undisturbed-append xs ys (act_on x c)

-- What comes before the last action.
before_last :
    (xs ys l : List Action) (a : Action)
    → xs ++ ys ≡ l ++ a ∷ []
    → ys ≢ []
    → (zs : List Action) × (l ≡ xs ++ zs)
before_last [] ys l a e ne = (l, refl)
before_last (x ∷ xs) ys [] a e ne = absurd (ne (nothing_left xs ys (cc)))
  where
    nothing_left : (xs ys : List Action) → xs ++ ys ≡ [] → ys ≡ []
    nothing_left [] ys e = e
    nothing_left (x ∷ xs) ys e = absurd (cc)
before_last (x ∷ xs) ys (y ∷ l) a e ne = let (zs, q) = before_last xs ys l a (cc) ne in (zs, cc)

running_before :
    (d : ℤ) (xs zs acts : List Action)
    → tally one_timeout acts ≡ 0
    → timeout_set d ∷ acts ≡ xs ++ zs
    → undisturbed xs unset ≢ cancelled
running_before d [] zs acts h e q = absurd (cc)
running_before d (x ∷ xs) zs acts h e q =
    let same : acts ≡ xs ++ zs = cc in
    let head : timeout_set d ≡ x = cc in
    let none_in : tally one_timeout xs ≡ 0 =
      omega (arith, h, ap (tally one_timeout) same, tally-append one_timeout xs zs) in
    let kept = undisturbed-same xs running none_in in
    let now : undisturbed xs (act_on x unset) ≡ running =
      ap (λ a. undisturbed xs (act_on a unset)) (sym head) ∙ kept in
    absurd (cc)

act_on_set : (a : Action) (c : Context) → c ≢ unset → act_on a c ≢ unset
act_on_set a c h = ground arith

undisturbed_set : (acts : List Action) (c : Context) → c ≢ unset → undisturbed acts c ≢ unset
undisturbed_set [] c h = h
undisturbed_set (a ∷ acts) c h = undisturbed_set acts (act_on a c) (act_on_set a c h)

set_first :
    (d : ℤ) (xs zs acts : List Action)
    → timeout_set d ∷ acts ≡ xs ++ zs
    → xs ≢ []
    → undisturbed xs unset ≢ unset
set_first d [] zs acts e ne = absurd (ne refl)
set_first d (x ∷ xs) zs acts e ne =
    let head : timeout_set d ≡ x = cc in
    let now : act_on x unset ≡ running = ap (λ a. act_on a unset) (sym head) in
    undisturbed_set xs (act_on x unset) (λ q. absurd (cc))

module _ (cb : Circuit) (req : Request) (env : Env) where
  with_breaker-timeout : tally one_timeout (with_breaker cb req env).trace ≡ 0
  unfolding with_breaker
  with_breaker-timeout = elim (Option-cases cb.state) [
    | inl e ↦ simp (e, with_breaker) (with_slot-outer cb req env 0 0 1)
    | inr (b, e) ↦ elim (Option-cases ((allow env.asked_at b).0.error)) [
      | inl a ↦
          let r = with_slot cb req env in
          let q = deferred-at one_timeout (tells cb req env b) r r.ending refl (λ x. refl) in
          simp (with_breaker_admitted cb req env b e a)
            (omega (arith, q.0, with_slot-outer cb req env 0 0 1))
      | inr (x, a) ↦ simp (with_breaker_refused cb req env b e x a) refl
    ]
  ]

  -- One action ends the timeout, or hands it to the body.
  end_timeout_one :
      (e : Ending)
      → e ≢ waiting
      → (a : Action) × (end_timeout cb req env e ≡ a ∷ []) × (act_on a running ≡ left_context e)
  end_timeout_one waiting ne = absurd (ne refl)
  end_timeout_one panicked ne = (timeout_cancelled, refl, refl)
  end_timeout_one (returned none x) ne = (timeout_cancelled, refl, refl)
  end_timeout_one (returned (some r) (some x)) ne = (timeout_cancelled, refl, refl)
  end_timeout_one (returned (some r) none) ne = elim (Bool-cases r.has_body) [
    | inl e ↦ rw e (timeout_tied, refl, refl)
    | inr e ↦ rw e (timeout_cancelled, refl, refl)
  ]

  -- The condition under which `Do` sets its own timeout.
  abbrev pub timeout_applies : ℤ → Bool
  timeout_applies client_timeout =
      ltb_ℤ (pos 0) cb.default_timeout && (eqb_ℤ client_timeout (pos 0) && not req.has_deadline)

  -- The trace of a call with a timeout of its own.
  unfoldable pub Guarded : Run → Type 0
  Guarded run =
      (undisturbed run.trace unset ≡ left_context run.ending)
      × ((xs ys : List Action) → run.trace ≡ xs ++ ys → ys ≢ [] → undisturbed xs unset ≢ cancelled)
      × ((xs ys : List Action) → run.trace ≡ xs ++ ys → xs ≢ [] → undisturbed xs unset ≢ unset)

  over-Guarded :
      (d : ℤ) (r : Run)
      → r.ending ≢ waiting
      → tally one_timeout r.trace ≡ 0
      → Guarded (after (timeout_set d ∷ []) (deferred (end_timeout cb req env) r))
  unfolding Guarded
  over-Guarded d r ne h =
      let (a, one, steps) = end_timeout_one r.ending ne in
      let tr : (deferred (end_timeout cb req env) r).trace ≡ r.trace ++ a ∷ [] =
        told (end_timeout cb req env) r r.ending refl ne ∙ ap (λ l. r.trace ++ l) one in
      (
        ap (λ l. undisturbed l running) tr
            ∙ undisturbed-append r.trace (a ∷ []) running
            ∙ ap (act_on a) (undisturbed-same r.trace running h)
            ∙ steps
            ∙ ap left_context (sym (deferred-ending (end_timeout cb req env) r)),
        λ xs ys q some_left.
            let (zs, w) =
              before_last xs ys (timeout_set d ∷ r.trace) a (sym q ∙ ap (λ l. timeout_set d ∷ l) tr)
                some_left in
            running_before d xs zs r.trace h w,
        λ xs ys q some_made. set_first d xs ys _ q some_made,
      )

  deferred-Guarded :
      (d : ℤ) (r : Run) (e : Ending)
      → r.ending ≡ e
      → tally one_timeout r.trace ≡ 0
      → Guarded (after (timeout_set d ∷ []) (deferred (end_timeout cb req env) r))
  unfolding Guarded
  deferred-Guarded d r waiting e h = rw e (
    undisturbed-same r.trace running h,
    λ xs ys q some_left. running_before d xs ys r.trace h q,
    λ xs ys q some_made. set_first d xs ys _ q some_made,
  )
  deferred-Guarded d r panicked e h = over-Guarded d r (λ w. absurd (cc)) h
  deferred-Guarded d r (returned resp x) e h = over-Guarded d r (λ w. absurd (cc)) h

  -- The trace of a call, by whether `Do` makes a context for it.
  pub do_request-Guarded :
      (client : Option ℤ)
      → let run = do_request cb (some req) client env in
        let applies = timeout_applies (elim client [ none ↦ pos 0 | some t ↦ t ]) in
        (applies ≡ false → tally one_timeout run.trace ≡ 0) × (applies ≡ true → Guarded run)
  unfolding do_request with_default_timeout
  do_request-Guarded client =
      let quiet = with_breaker-timeout in
      let guarded =
        deferred-Guarded cb.default_timeout (with_breaker cb req env)
          (with_breaker cb req env).ending refl quiet in
      (λ e. simp (e, with_default_timeout) quiet, λ e. simp (e, with_default_timeout) guarded)
