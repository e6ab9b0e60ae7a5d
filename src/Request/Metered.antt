-- ===== src/Request/Metered.antt =====
-- The metrics that a call of `Do` leaves behind: its recordings, in their order, under its host and
-- endpoint.
use Prim.Native.String.{String}
use circuit_breaker.Base.{
  ℕ, suc, ◌+◌, ◌%◌, ◌^◌, ◌≤◌, ◌≡◌, ◌≢◌, refl, ap, ◌∙◌, List, [], ◌∷◌, Option, some, arith, inl, inr,
  Option-cases,
}
use circuit_breaker.Base.Int.{ℤ}
use circuit_breaker.Float.{Float}
use circuit_breaker.Dict.{lookup}
use circuit_breaker.Metrics.{Metrics}
use circuit_breaker.Metrics.Runs.{
  Counter, total_requests, successful_requests, failed_requests, Call, run, EveryHost,
  record_update-IsSound,
}
use circuit_breaker.Request.{Action, Request, Env, endpoint_of, do_request, rounds}
use circuit_breaker.Circuit.{Circuit}
use circuit_breaker.Request.Stages.{unfinished_at}
use circuit_breaker.Request.Accounting.{Adds, do_request-Adds}
use circuit_breaker.Request.Tally.{tally, one_attempt, one_outcome}
use circuit_breaker.Request.Recordings.{
  update_of, calls_of, calls_of_recorded, delta_of, adds, root_total, record_update_root,
}

module _ {F : Type 0} (fl : Float F) (zero_time : ℤ) where
  -- What the recordings of some actions do to metrics.
  pub record Counted (req : Request) (acts : List Action) (m m' : Metrics fl zero_time)
      : Type 0 where
    pub sound : EveryHost fl zero_time m'
    pub counts :
        (c : Counter)
        → root_total fl zero_time c req.host m' % 2 ^ 64
          ≡ (root_total fl zero_time c req.host m + tally (adds c) acts) % 2 ^ 64
    pub elsewhere : (j : String) → req.host ≢ j → lookup j m' ≡ lookup j m

  pub run-Counted :
      (req : Request) (clock : ℕ → ℤ) (n : ℕ) (acts : List Action) (m : Metrics fl zero_time)
      → EveryHost fl zero_time m
      → (m' : Metrics fl zero_time) × (run fl zero_time (calls_of req clock n acts) m ≡ some m')
        × Counted req acts m m'
  unfolding calls_of run
  run-Counted req clock n [] m h =
      (m, refl, record { sound = h; counts = λ c. omega arith; elsewhere = λ j ne. refl })
  run-Counted req clock n (a ∷ acts) m h = elim (Option-cases (update_of a)) [
    | inl e ↦
        let (m', q, v) = run-Counted req clock n acts m h in
        (
          m',
          rw (e, calls_of) q,
          record {
            sound = v.sound;
            counts = λ c. omega (arith, v.counts c, ap (delta_of c) e);
            elsewhere = v.elsewhere;
          },
        )
    | inr (u, e) ↦
        let call : Call = record {
          host = req.host;
          endpoint = endpoint_of req;
          update = u;
          now = clock n;
          now' = clock (n + 1);
        } in
        let (m1, q1, h1) = record_update-IsSound fl zero_time call m h in
        let (m', q, v) = run-Counted req clock (n + 2) acts m1 h1 in
        (
          m',
          ap (λ l. run fl zero_time l m) (calls_of_recorded req clock n a acts u e)
              ∙ rw (q1, run) q,
          record {
            sound = v.sound;
            counts = λ c. omega (
              arith,
              v.counts c,
              ap (delta_of c) e,
              (record_update_root fl zero_time c call m m1 h q1).0,
            );
            elsewhere = λ j ne.
                v.elsewhere j ne
                ∙ (record_update_root fl zero_time total_requests call m m1 h q1).1 j ne;
          },
        )
  ]

-- A counter that adds what a weight counts.
tally-same :
    (w v : Action → ℕ)
    → ((a : Action) → w a ≡ v a)
    → (acts : List Action) → tally w acts ≡ tally v acts
tally-same w v h [] = refl
tally-same w v h (a ∷ acts) = omega (arith, h a, tally-same w v h acts)

pub one_attempt-adds : (a : Action) → one_attempt a ≡ adds total_requests a
one_attempt-adds a = ground arith

pub one_outcome-adds :
    (a : Action) → one_outcome a ≡ adds successful_requests a + adds failed_requests a
one_outcome-adds a = ground arith

tally-add :
    (w v : Action → ℕ) (acts : List Action)
    → tally (λ a. w a + v a) acts ≡ tally w acts + tally v acts
tally-add w v [] = refl
tally-add w v (a ∷ acts) = omega (arith, tally-add w v acts)

module _ {F : Type 0} (fl : Float F) (zero_time : ℤ) where
  -- One call of `Do` on sound metrics, whatever its environment and the clock readings inside the
  -- recordings: no recording panics, the metrics stay sound and only those of the request's host
  -- change. In "::root" of that host the attempts grow by some `t` and the successes and failures
  -- together by some `o`, modulo 2 ^ 64, where `o`, with one more if the call panicked or has not come
  -- back, is `t` or `t + 1`, and `t` and `o` are at most `MaxRetries + 1`, or none if that is not
  -- positive.
  pub do_request-Counted :
      (cb : Circuit) (req : Request) (client : Option ℤ) (env : Env) (clock : ℕ → ℤ)
      (m : Metrics fl zero_time)
      → EveryHost fl zero_time m
      → let call = do_request cb (some req) client env in
        let p = unfinished_at call.ending in
        (m' : Metrics fl zero_time) × (t : ℕ) × (o : ℕ) × (run fl zero_time
            (calls_of req clock 0 call.trace)
            m
          ≡ some m')
        × EveryHost fl zero_time m'
        × ((j : String) → req.host ≢ j → lookup j m' ≡ lookup j m)
        × (root_total fl zero_time total_requests req.host m' % 2 ^ 64
            ≡ (root_total fl zero_time total_requests req.host m + t) % 2 ^ 64)
        × ((root_total fl zero_time successful_requests req.host m'
                + root_total fl zero_time failed_requests req.host m')
              % 2 ^ 64
            ≡ (root_total fl zero_time successful_requests req.host m
                + root_total fl zero_time failed_requests req.host m
                + o)
              % 2 ^ 64)
        × (t ≤ o + p)
        × (o + p ≤ suc t)
        × (t ≤ rounds cb.max_retries)
        × (o ≤ rounds cb.max_retries)
  unfolding Adds
  do_request-Counted cb req client env clock m h =
      let acts = (do_request cb (some req) client env).trace in
      let (m', q, v) = run-Counted fl zero_time req clock 0 acts m h in
      let a = do_request-Adds cb req client env in
      let total = tally-same one_attempt (adds total_requests) one_attempt-adds acts in
      let outcome =
        tally-same one_outcome (λ x. adds successful_requests x + adds failed_requests x)
          one_outcome-adds acts in
      let split = tally-add (adds successful_requests) (adds failed_requests) acts in
      (
        m',
        tally one_attempt acts,
        tally one_outcome acts,
        q,
        v.sound,
        v.elsewhere,
        omega (arith, v.counts total_requests, total),
        omega (arith, v.counts successful_requests, v.counts failed_requests, outcome, split),
        a.1,
        a.2,
        a.3,
        a.4,
      )
