-- ===== src/Endpoint/History.antt =====
-- What `snapshot` of pkg/metrics_state.go publishes, against the history of the endpoint's updates.
use circuit_breaker.Base.{ℕ, suc, ◌%◌, ◌^◌, ◌<◌, ◌≡◌, refl, List, [], ◌∷◌, arith, length, ap, ◌∙◌}
use circuit_breaker.Base.Int.{ℤ}
use circuit_breaker.Float.{Float}
use circuit_breaker.Ring.{ring_size, float_ring_slice, time_ring_slice}
use circuit_breaker.Ring.Window.{last_of}
use circuit_breaker.Wheel.Recent.{recent}
use circuit_breaker.Endpoint.{
  FamilyState, EndpointState, EndpointMetrics, Update, attempt, succeed, fail, again, token_cancel,
  new_endpoint, snapshot, apply, unix,
}
use circuit_breaker.Endpoint.Events.{
  Event, Clocked, seconds_of, family_of, duration_of, oldest_first, starts_slice, durations_slice,
  RatiosExact, family_of-RatiosExact,
}

-- The four families of an endpoint.
pub data Kind : Type 0 where
  requests successes failures retries : Kind

-- The event that an update records in a family, if it is of that family.
abbrev pub in_family : Kind → Update → ℤ → List Event → List Event
in_family requests (attempt s e) now evs = record { start = s; end = e; now = now } ∷ evs
in_family successes (succeed s e) now evs = record { start = s; end = e; now = now } ∷ evs
in_family failures (fail s e) now evs = record { start = s; end = e; now = now } ∷ evs
in_family retries (again s e) now evs = record { start = s; end = e; now = now } ∷ evs
in_family _ _ now evs = evs

-- Updates with the clock readings inside them, the newest first.
abbrev pub events_of : Kind → List (Update × ℤ) → List Event
events_of k [] = []
events_of k ((u, now) ∷ us) = in_family k u now (events_of k us)

abbrev pub cancellations : List (Update × ℤ) → ℕ
cancellations [] = 0
cancellations ((token_cancel, now) ∷ us) = suc (cancellations us)
cancellations (_ ∷ us) = cancellations us

abbrev family : {F : Type 0} → Kind → EndpointState F → FamilyState F
family requests s = s.req
family successes s = s.success
family failures s = s.failure
family retries s = s.retry

abbrev counter : {F : Type 0} → Kind → EndpointState F → ℕ
counter requests s = s.total_requests
counter successes s = s.successful_requests
counter failures s = s.failed_requests
counter retries s = s.retry_count

-- What a snapshot shows of a family.
pub record Shown (F : Type 0) : Type 0 where
  pub count : ℕ
  pub ratio01 : ℕ
  pub ratio05 : ℕ
  pub ratio10 : ℕ
  pub times : List F
  pub start_times : List ℤ

abbrev pub shown : {F : Type 0} → Kind → EndpointMetrics F → Shown F
shown requests m = record {
  count = m.total_requests;
  ratio01 = m.ratio01_requests;
  ratio05 = m.ratio05_requests;
  ratio10 = m.ratio10_requests;
  times = m.time_requests;
  start_times = m.start_time_requests;
}
shown successes m = record {
  count = m.successful_requests;
  ratio01 = m.ratio01_successful_requests;
  ratio05 = m.ratio05_successful_requests;
  ratio10 = m.ratio10_successful_requests;
  times = m.time_successful_requests;
  start_times = m.start_time_successful_requests;
}
shown failures m = record {
  count = m.failed_requests;
  ratio01 = m.ratio01_failed_requests;
  ratio05 = m.ratio05_failed_requests;
  ratio10 = m.ratio10_failed_requests;
  times = m.time_failed_requests;
  start_times = m.start_time_failed_requests;
}
shown retries m = record {
  count = m.retry_count;
  ratio01 = m.ratio01_retry;
  ratio05 = m.ratio05_retry;
  ratio10 = m.ratio10_retry;
  times = m.time_retry;
  start_times = m.start_time_retry;
}

module _ {F : Type 0} (fl : Float F) (zero_time : ℤ) where
  pub endpoint_of : List (Update × ℤ) → EndpointState F
  endpoint_of [] = new_endpoint fl zero_time
  endpoint_of ((u, now) ∷ us) = apply fl u now (endpoint_of us)

  family-apply :
      (k : Kind) (u : Update) (now : ℤ) (s : EndpointState F) (evs : List Event)
      → family k s ≡ family_of fl zero_time evs
      → family k (apply fl u now s) ≡ family_of fl zero_time (in_family k u now evs)
  unfolding apply family_of
  family-apply requests u now s evs e = ground arith
  family-apply successes u now s evs e = ground arith
  family-apply failures u now s evs e = ground arith
  family-apply retries u now s evs e = ground arith

  counter-apply :
      (k : Kind) (u : Update) (now : ℤ) (s : EndpointState F) (evs : List Event)
      → counter k s ≡ length evs % 2 ^ 64
      → counter k (apply fl u now s) ≡ length (in_family k u now evs) % 2 ^ 64
  unfolding apply
  counter-apply requests u now s evs e = ground arith
  counter-apply successes u now s evs e = ground arith
  counter-apply failures u now s evs e = ground arith
  counter-apply retries u now s evs e = ground arith

  family-endpoint_of :
      (k : Kind) (us : List (Update × ℤ))
      → family k (endpoint_of us) ≡ family_of fl zero_time (events_of k us)
  unfolding endpoint_of family_of
  family-endpoint_of requests [] = refl
  family-endpoint_of successes [] = refl
  family-endpoint_of failures [] = refl
  family-endpoint_of retries [] = refl
  family-endpoint_of k ((u, now) ∷ us) =
      family-apply k u now (endpoint_of us) (events_of k us) (family-endpoint_of k us)

  counter-endpoint_of :
      (k : Kind) (us : List (Update × ℤ))
      → counter k (endpoint_of us) ≡ length (events_of k us) % 2 ^ 64
  unfolding endpoint_of
  counter-endpoint_of requests [] = refl
  counter-endpoint_of successes [] = refl
  counter-endpoint_of failures [] = refl
  counter-endpoint_of retries [] = refl
  counter-endpoint_of k ((u, now) ∷ us) =
      counter-apply k u now (endpoint_of us) (events_of k us) (counter-endpoint_of k us)

  cancellations-endpoint_of :
      (us : List (Update × ℤ))
      → (endpoint_of us).token_wait_cancellations ≡ cancellations us % 2 ^ 64
  unfolding endpoint_of apply
  cancellations-endpoint_of [] = refl
  cancellations-endpoint_of ((attempt s e, now) ∷ us) = cancellations-endpoint_of us
  cancellations-endpoint_of ((succeed s e, now) ∷ us) = cancellations-endpoint_of us
  cancellations-endpoint_of ((fail s e, now) ∷ us) = cancellations-endpoint_of us
  cancellations-endpoint_of ((again s e, now) ∷ us) = cancellations-endpoint_of us
  cancellations-endpoint_of ((token_cancel, now) ∷ us) = omega (arith, cancellations-endpoint_of us)

  of_family : FamilyState F → ℕ → Shown F
  of_family f n = record {
    count = n;
    ratio01 = f.ratio01;
    ratio05 = f.ratio05;
    ratio10 = f.ratio10;
    times = float_ring_slice fl f.durations;
    start_times = time_ring_slice zero_time f.starts;
  }

  shown-snapshot :
      (k : Kind) (s : EndpointState F)
      → shown k (snapshot fl zero_time s) ≡ of_family (family k s) (counter k s)
  unfolding snapshot of_family
  shown-snapshot requests s = refl
  shown-snapshot successes s = refl
  shown-snapshot failures s = refl
  shown-snapshot retries s = refl

  -- The counts of the last 60, 300 and 600 seconds up to the newest event, when it was recorded.
  abbrev pub RatiosShown : Shown F → List Event → Type 0
  RatiosShown p [] = Unit
  RatiosShown p (e ∷ evs) =
      (p.ratio01 ≡ recent (unix e.now) 60 (seconds_of (e ∷ evs)))
      × (p.ratio05 ≡ recent (unix e.now) 300 (seconds_of (e ∷ evs)))
      × (p.ratio10 ≡ recent (unix e.now) 600 (seconds_of (e ∷ evs)))

  ratios-of_family :
      (n : ℕ) (f : FamilyState F) (evs : List Event)
      → RatiosExact fl zero_time f evs
      → RatiosShown (of_family f n) evs
  unfolding of_family
  ratios-of_family n f [] h = tt
  ratios-of_family n f (e ∷ evs) h = h

  -- Whatever updates an endpoint has seen, its snapshot shows of each of the four families the number
  -- of its events, modulo 2 ^ 64, and the durations and the start times of the last 20 of them in
  -- the order in which they came; and it shows the number of waits that were cancelled.
  pub snapshot-events_of :
      (k : Kind) (us : List (Update × ℤ))
      → let evs = events_of k us in
        let m = snapshot fl zero_time (endpoint_of us) in
        ((shown k m).count ≡ length evs % 2 ^ 64)
        × ((shown k m).times
            ≡ last_of ring_size (oldest_first fl zero_time (duration_of fl zero_time) evs))
        × ((shown k m).start_times
            ≡ last_of ring_size (oldest_first fl zero_time (λ e. e.start) evs))
        × (m.token_wait_cancellations ≡ cancellations us % 2 ^ 64)
  unfolding of_family snapshot
  snapshot-events_of k us = (
    ap (λ p. p.count) (shown-snapshot k (endpoint_of us)) ∙ counter-endpoint_of k us,
    ap (λ p. p.times) (shown-snapshot k (endpoint_of us))
        ∙ ap (λ f. float_ring_slice fl f.durations) (family-endpoint_of k us)
        ∙ durations_slice fl zero_time (events_of k us),
    ap (λ p. p.start_times) (shown-snapshot k (endpoint_of us))
        ∙ ap (λ f. time_ring_slice zero_time f.starts) (family-endpoint_of k us)
        ∙ starts_slice fl zero_time (events_of k us),
    cancellations-endpoint_of us,
  )

  -- With a clock that does not run backwards, starts that lie after 1970 and not after the
  -- recording, and fewer than 2 ^ 31 events of the family (the buckets are int32), the three windows
  -- of a family that has an event are exact: they are the numbers of its events that started in the
  -- last 60, 300 and 600 seconds, at the time of its newest event.
  pub snapshot_ratios :
      (k : Kind) (us : List (Update × ℤ))
      → Clocked (events_of k us)
      → length (seconds_of (events_of k us)) < 2 ^ 31
      → RatiosShown (shown k (snapshot fl zero_time (endpoint_of us))) (events_of k us)
  snapshot_ratios k us c few =
      rw (shown-snapshot k (endpoint_of us), family-endpoint_of k us)
        (ratios-of_family (counter k (endpoint_of us)) (family_of fl zero_time (events_of k us))
          (events_of k us) (family_of-RatiosExact fl zero_time (events_of k us) c few))
