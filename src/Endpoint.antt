-- ===== src/Endpoint.antt =====
-- pkg/metrics_state.go, `familyState` and `endpointState`, and pkg/endpoint_metrics.go: the state of
-- one endpoint, its updates (the closures of pkg/circuitbreaker.go), and its snapshot.
-- A time is a number of nanoseconds since 1970. Counters are int64 words.
pub mod Events
pub mod History
use circuit_breaker.Base.{ℕ, ◌+◌, ◌/◌, ◌%◌, ◌^◌, List}
use circuit_breaker.Base.Int.{ℤ, pos, negsuc}
use circuit_breaker.Base.Words.{add64, sub_time}
use circuit_breaker.Float.{Float}
use circuit_breaker.Ring.{
  TimeRing, new_time_ring, time_ring_add, time_ring_slice, FloatRing, new_float_ring,
  float_ring_add, float_ring_mean, float_ring_slice,
}
use circuit_breaker.Wheel.{Wheel, new_wheel, record_at, count_last}

-- `t.Unix()`, at 0 for the times before 1970, with which the wheel cannot work.
abbrev pub unix : ℤ → ℕ
unix (pos n) = n / 1_000_000_000
unix (negsuc n) = 0

pub record FamilyState (F : Type 0) : Type 0 where
  pub durations : FloatRing F
  pub starts : TimeRing ℤ
  pub wheel : Wheel
  pub mean : F
  pub ratio01 : ℕ
  pub ratio05 : ℕ
  pub ratio10 : ℕ

pub record EndpointState (F : Type 0) : Type 0 where
  pub total_requests : ℕ
  pub successful_requests : ℕ
  pub failed_requests : ℕ
  pub retry_count : ℕ
  pub token_wait_cancellations : ℕ
  pub req : FamilyState F
  pub success : FamilyState F
  pub failure : FamilyState F
  pub retry : FamilyState F

pub record EndpointMetrics (F : Type 0) : Type 0 where
  pub total_requests : ℕ
  pub successful_requests : ℕ
  pub failed_requests : ℕ
  pub retry_count : ℕ
  pub token_wait_cancellations : ℕ
  pub mean_requests : F
  pub mean_successful_requests : F
  pub mean_failed_requests : F
  pub mean_retry : F
  pub ratio01_requests : ℕ
  pub ratio01_successful_requests : ℕ
  pub ratio01_failed_requests : ℕ
  pub ratio01_retry : ℕ
  pub ratio05_requests : ℕ
  pub ratio05_successful_requests : ℕ
  pub ratio05_failed_requests : ℕ
  pub ratio05_retry : ℕ
  pub ratio10_requests : ℕ
  pub ratio10_successful_requests : ℕ
  pub ratio10_failed_requests : ℕ
  pub ratio10_retry : ℕ
  pub time_requests : List F
  pub time_successful_requests : List F
  pub time_failed_requests : List F
  pub time_retry : List F
  pub start_time_requests : List ℤ
  pub start_time_successful_requests : List ℤ
  pub start_time_failed_requests : List ℤ
  pub start_time_retry : List ℤ

module _ {F : Type 0} (fl : Float F) (zero_time : ℤ) where
  abbrev pub new_family : FamilyState F
  new_family = record {
    durations = new_float_ring fl;
    starts = new_time_ring zero_time;
    wheel = new_wheel;
    mean = fl.zero;
    ratio01 = 0;
    ratio05 = 0;
    ratio10 = 0;
  }

  -- `&endpointState{}`
  abbrev pub new_endpoint : EndpointState F
  new_endpoint = record {
    total_requests = 0;
    successful_requests = 0;
    failed_requests = 0;
    retry_count = 0;
    token_wait_cancellations = 0;
    req = new_family;
    success = new_family;
    failure = new_family;
    retry = new_family;
  }

  unfoldable pub snapshot : EndpointState F → EndpointMetrics F
  snapshot s = record {
    total_requests = s.total_requests;
    successful_requests = s.successful_requests;
    failed_requests = s.failed_requests;
    retry_count = s.retry_count;
    token_wait_cancellations = s.token_wait_cancellations;
    mean_requests = s.req.mean;
    mean_successful_requests = s.success.mean;
    mean_failed_requests = s.failure.mean;
    mean_retry = s.retry.mean;
    ratio01_requests = s.req.ratio01;
    ratio01_successful_requests = s.success.ratio01;
    ratio01_failed_requests = s.failure.ratio01;
    ratio01_retry = s.retry.ratio01;
    ratio05_requests = s.req.ratio05;
    ratio05_successful_requests = s.success.ratio05;
    ratio05_failed_requests = s.failure.ratio05;
    ratio05_retry = s.retry.ratio05;
    ratio10_requests = s.req.ratio10;
    ratio10_successful_requests = s.success.ratio10;
    ratio10_failed_requests = s.failure.ratio10;
    ratio10_retry = s.retry.ratio10;
    time_requests = float_ring_slice fl s.req.durations;
    time_successful_requests = float_ring_slice fl s.success.durations;
    time_failed_requests = float_ring_slice fl s.failure.durations;
    time_retry = float_ring_slice fl s.retry.durations;
    start_time_requests = time_ring_slice zero_time s.req.starts;
    start_time_successful_requests = time_ring_slice zero_time s.success.starts;
    start_time_failed_requests = time_ring_slice zero_time s.failure.starts;
    start_time_retry = time_ring_slice zero_time s.retry.starts;
  }

-- The closures of `recordAttempt`, `recordSuccess`, `recordFailure`, `recordRetry` and
-- `recordTokenCancel`, with the start and end that they capture.
pub data Update : Type 0 where
  attempt succeed fail again : ℤ → ℤ → Update
  token_cancel : Update

module _ {F : Type 0} (fl : Float F) where
  -- The three calls of `countLast` at one `now`, each on the wheel that the one before left.
  unfoldable pub family_record : ℤ → ℤ → ℤ → FamilyState F → FamilyState F
  family_record start end now f =
      let durations = float_ring_add fl (fl.seconds (sub_time end start)) f.durations in
      let (r01, w01) = count_last (unix now) 60 (record_at (unix start) f.wheel) in
      let (r05, w05) = count_last (unix now) 300 w01 in
      let (r10, w10) = count_last (unix now) 600 w05 in
      record {
        durations = durations;
        starts = time_ring_add start f.starts;
        wheel = w10;
        mean = float_ring_mean fl durations;
        ratio01 = r01;
        ratio05 = r05;
        ratio10 = r10;
      }

  -- One call of a closure on one state; `now` is the reading of the clock in `familyState.record`.
  unfoldable pub apply : Update → ℤ → EndpointState F → EndpointState F
  apply (attempt start end) now s = record s {
    total_requests = add64 s.total_requests 1;
    req = family_record start end now s.req;
  }
  apply (succeed start end) now s = record s {
    successful_requests = add64 s.successful_requests 1;
    success = family_record start end now s.success;
  }
  apply (fail start end) now s = record s {
    failed_requests = add64 s.failed_requests 1;
    failure = family_record start end now s.failure;
  }
  apply (again start end) now s = record s {
    retry_count = add64 s.retry_count 1;
    retry = family_record start end now s.retry;
  }
  apply token_cancel now s = record s {
    token_wait_cancellations = add64 s.token_wait_cancellations 1;
  }
