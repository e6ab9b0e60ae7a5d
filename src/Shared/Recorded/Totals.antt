-- ===== src/Shared/Recorded/Totals.antt =====
-- The totals of the metrics under interleaved calls of `Do`.
use Prim.Native.String.{String}
use text.Mathlib.Text.{◌==◌}
use text.Mathlib.TextEquality.{eq_iff}
use circuit_breaker.Base.{
  ℕ, ◌+◌, ◌*◌, ◌%◌, ◌^◌, ◌≤◌, ◌≡◌, ◌≢◌, refl, ap, ◌∙◌, none, some, Option-cases, Bool-cases, inl,
  inr, List, [], ◌∷◌, ◌++◌, arith,
}
use circuit_breaker.Base.Int.{ℤ}
use circuit_breaker.Float.{Float}
use circuit_breaker.Dict.{lookup}
use circuit_breaker.Metrics.{Metrics, record_update}
use circuit_breaker.Metrics.Runs
use circuit_breaker.Metrics.Runs.{
  Counter, total_requests, successful_requests, failed_requests, EveryHost, run,
}
use circuit_breaker.Request.Tally.{one_sent, one_attempt, one_outcome}
use circuit_breaker.Request.Recordings.{adds, root_total, host_value}
use circuit_breaker.Request.Metered.{run-Counted, one_attempt-adds, one_outcome-adds}
use circuit_breaker.Shared.{
  System, Step, enter, begin, refused, act, tell, tick, halt, Reach, here, next,
}
use circuit_breaker.Shared.Recorded.{
  at_host, made_by, made, recorded_by, recordings, made-add, made_zero, made-ahead,
}

module _ {F : Type 0} (fl : Float F) (zero_time : ℤ) where
  run-append :
      (xs ys : List Runs.Call) (m m' : Metrics fl zero_time)
      → run fl zero_time xs m ≡ some m'
      → run fl zero_time (xs ++ ys) m ≡ run fl zero_time ys m'
  unfolding run
  run-append [] ys m m' e = let same : m ≡ m' = cc in ap (run fl zero_time ys) same
  run-append (x ∷ xs) ys m m' e =
      elim (Option-cases (record_update fl zero_time x.host x.endpoint x.update x.now x.now' m)) [
        | inl q ↦ let stuck : none ≡ some m' = rw (q, run) at e in absurd (cc)
        | inr (m1, q) ↦ rw (q, run) (run-append xs ys m1 m' (rw (q, run) at e))
      ]

  -- What updates do to metrics, counted at each host.
  record Records (given : Counter → String → ℕ) (m m' : Metrics fl zero_time) : Type 0 where
    sound : EveryHost fl zero_time m'
    counts :
        (c : Counter) (h : String)
        → root_total fl zero_time c h m' % 2 ^ 64
          ≡ (root_total fl zero_time c h m + given c h) % 2 ^ 64

  Step-Records :
      (clock : ℕ → ℤ) (n : ℕ) {s t : System} (st : Step s t) (m : Metrics fl zero_time)
      → EveryHost fl zero_time m
      → (m' : Metrics fl zero_time) × (run fl zero_time (recorded_by clock n st) m ≡ some m')
        × Records (λ c h. made_by (adds c) h st) m m'
  unfolding run
  Step-Records clock n (enter req env e a x q) m v =
      (m, refl, record { sound = v; counts = λ c h. omega arith })
  Step-Records clock n (begin req env e) m v =
      (m, refl, record { sound = v; counts = λ c h. omega arith })
  Step-Records clock n (refused now e a q) m v =
      (m, refl, record { sound = v; counts = λ c h. omega arith })
  Step-Records clock n (tell probe gen now o w e q) m v =
      (m, refl, record { sound = v; counts = λ c h. omega arith })
  Step-Records clock n (tick ch e on lot) m v =
      (m, refl, record { sound = v; counts = λ c h. omega arith })
  Step-Records clock n halt m v = (m, refl, record { sound = v; counts = λ c h. omega arith })
  Step-Records clock n (act {call} {a = a} r e silent q) m v =
      let (m', done, k) = run-Counted fl zero_time call.req clock n (a ∷ []) m v in
      (
        m',
        done,
        record {
          sound = k.sound;
          counts = λ c h. elim (Bool-cases (call.req.host == h)) [
            | inl same ↦
                let here_too : call.req.host ≡ h = ground (arith, eq_iff call.req.host h) in
                let weight : at_host h (λ _. adds c a) call ≡ adds c a = simp (same) refl in
                omega (
                  arith,
                  k.counts c,
                  weight,
                  ap (λ x. root_total fl zero_time c x m) here_too,
                  ap (λ x. root_total fl zero_time c x m') here_too,
                )
            | inr differs ↦
                let ne : call.req.host ≢ h = λ x. absurd (ground (arith, eq_iff call.req.host h)) in
                let weight : at_host h (λ _. adds c a) call ≡ 0 = simp (differs) refl in
                omega (arith, weight, ap (host_value fl zero_time c) (k.elsewhere h ne))
          ];
        },
      )

  Reach-Records :
      (clock : ℕ → ℤ) {s0 : System} {n : ℕ} {s : System} (r : Reach s0 n s)
      → (m : Metrics fl zero_time) × (run fl zero_time (recordings clock r) [] ≡ some m)
        × Records (λ c h. made (adds c) h r) [] m
  unfolding run lookup
  Reach-Records clock here =
      ([], refl, record { sound = λ h hm e. absurd (cc); counts = λ c h. refl })
  Reach-Records clock (next {n} r st) =
      let (m, done, v) = Reach-Records clock r in
      let (m', more, k) = Step-Records clock (2 * n) st m v.sound in
      (
        m',
        run-append (recordings clock r) (recorded_by clock (2 * n) st) [] m done ∙ more,
        record { sound = k.sound; counts = λ c h. omega (arith, v.counts c h, k.counts c h) },
      )

  -- The metrics that calls of `Do` on one breaker leave behind, when they begin with none and
  -- however the actions, the ticks and `Stop` interleave, for any clock readings inside the
  -- recordings. No recording panics and the metrics stay sound. For every host, modulo 2 ^ 64,
  -- the attempts in its "::root" are those that its calls have recorded, and the successes and
  -- failures together the outcomes; and at no time have its calls sent more requests than they
  -- have recorded attempts.
  pub recordings_count :
      (clock : ℕ → ℤ) {s0 : System} {n : ℕ} {s : System} (r : Reach s0 n s)
      → s0.calls ≡ []
      → (m : Metrics fl zero_time) × (run fl zero_time (recordings clock r) [] ≡ some m)
        × EveryHost fl zero_time m
        × ((h : String)
            → (root_total fl zero_time total_requests h m % 2 ^ 64 ≡ made one_attempt h r % 2 ^ 64)
              × ((root_total fl zero_time successful_requests h m
                      + root_total fl zero_time failed_requests h m)
                    % 2 ^ 64
                  ≡ made one_outcome h r % 2 ^ 64)
              × (made one_sent h r ≤ made one_attempt h r))
  unfolding lookup
  recordings_count clock r e =
      let (m, done, v) = Reach-Records clock r in
      (
        m,
        done,
        v.sound,
        λ h.
            let attempts =
              made-add one_attempt (adds total_requests) (λ _. 0)
                (λ a. omega (arith, one_attempt-adds a)) h r in
            let outcomes =
              made-add one_outcome (adds successful_requests) (adds failed_requests)
                one_outcome-adds h r in
            (
              omega (arith, v.counts total_requests h, attempts, made_zero h r),
              omega (arith, v.counts successful_requests h, v.counts failed_requests h, outcomes),
              omega (arith, made-ahead h r e),
            ),
      )
