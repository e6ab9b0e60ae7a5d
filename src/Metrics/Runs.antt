-- ===== src/Metrics/Runs.antt =====
-- Any sequence of updates, from no metrics at all.
use Prim.Native.String.{String}
use mathlib.Core.Path.{subst}
use circuit_breaker.Base.{
  ℕ, ◌+◌, ◌%◌, ◌^◌, ◌≡◌, refl, List, [], ◌∷◌, Option, none, some, arith, inl, inr, Option-cases,
}
use circuit_breaker.Base.Int.{ℤ}
use circuit_breaker.Float.{Float}
use circuit_breaker.Dict.{lookup, insert, insert_every}
use circuit_breaker.Endpoint.{
  EndpointState, Update, attempt, succeed, fail, again, token_cancel, new_endpoint, apply,
}
use circuit_breaker.Metrics.{
  root, Host, update_host, update_metrics, host_metrics, Metrics, record_update,
}
use circuit_breaker.Metrics.Hosts.{
  IsHost, Updated, update_host-Updated, Updated-IsHost, fresh-IsHost,
}
use circuit_breaker.Metrics.Totals.{IsBalanced, fresh_host-IsBalanced, Updated-IsBalanced}

-- The five counters of an endpoint.
pub data Counter : Type 0 where
  total_requests successful_requests failed_requests retry_count token_wait_cancellations : Counter

module _ {F : Type 0} where
  abbrev pub value : Counter → EndpointState F → ℕ
  value total_requests s = s.total_requests
  value successful_requests s = s.successful_requests
  value failed_requests s = s.failed_requests
  value retry_count s = s.retry_count
  value token_wait_cancellations s = s.token_wait_cancellations

-- What an update adds to a counter.
abbrev pub delta : Counter → Update → ℕ
delta total_requests (attempt _ _) = 1
delta successful_requests (succeed _ _) = 1
delta failed_requests (fail _ _) = 1
delta retry_count (again _ _) = 1
delta token_wait_cancellations token_cancel = 1
delta _ _ = 0

pub record Call : Type 0 where
  pub host : String
  pub endpoint : String
  pub update : Update
  pub now : ℤ
  pub now' : ℤ

module _ {F : Type 0} (fl : Float F) (zero_time : ℤ) where
  pub value-apply :
      (c : Counter) (u : Update) (now : ℤ) (s : EndpointState F)
      → value c (apply fl u now s) % 2 ^ 64 ≡ (value c s + delta c u) % 2 ^ 64
  unfolding apply
  value-apply total_requests u now s = ground arith
  value-apply successful_requests u now s = ground arith
  value-apply failed_requests u now s = ground arith
  value-apply retry_count u now s = ground arith
  value-apply token_wait_cancellations u now s = ground arith

  pub value-new : (c : Counter) → value c (new_endpoint fl zero_time) ≡ 0
  value-new total_requests = refl
  value-new successful_requests = refl
  value-new failed_requests = refl
  value-new retry_count = refl
  value-new token_wait_cancellations = refl

  pub record IsSound (hm : Host (EndpointState F)) : Type 0 where
    pub host : IsHost hm
    pub balanced : (c : Counter) → IsBalanced (value c) hm

  abbrev pub EveryHost : Metrics fl zero_time → Type 0
  EveryHost m = (h : String) (hm : Host (EndpointState F)) → lookup h m ≡ some hm → IsSound hm

  fresh_host-IsSound : IsSound ((root, new_endpoint fl zero_time) ∷ [])
  fresh_host-IsSound = record {
    host = fresh-IsHost (new_endpoint fl zero_time);
    balanced = λ c. fresh_host-IsBalanced (new_endpoint fl zero_time) (value c) (value-new c);
  }

  pub host_metrics-IsSound :
      (h : String) (m : Metrics fl zero_time)
      → EveryHost m
      → IsSound (host_metrics (new_endpoint fl zero_time) (lookup h m))
  unfolding host_metrics
  host_metrics-IsSound h m e = elim (Option-cases (lookup h m)) [
    | inl absent ↦ rw (absent, host_metrics) fresh_host-IsSound
    | inr (hm, found) ↦ rw (found, host_metrics) (e h hm found)
  ]

  update_host-IsSound :
      (endpoint : String) (u : Update) (now now' : ℤ) (hm : Host (EndpointState F))
      → IsSound hm
      → (hm' : Host (EndpointState F)) × (update_host
            (new_endpoint fl zero_time)
            endpoint
            (apply fl u now)
            (apply fl u now')
            hm
          ≡ some hm')
        × IsSound hm'
  update_host-IsSound endpoint u now now' hm h =
      let new = new_endpoint fl zero_time in
      let f = apply fl u now in
      let g = apply fl u now' in
      let up = update_host-Updated new endpoint f g hm h.host in
      let (hm', e, valid) = Updated-IsHost new endpoint f g hm _ h.host up in
      (
        hm',
        e,
        record {
          host = valid;
          balanced = λ c.
              Updated-IsBalanced new (value c) (value-new c) (delta c u) f g (value-apply c u now)
                (value-apply c u now') endpoint hm hm' (h.balanced c)
                (subst (Updated new endpoint f g hm) e up);
        },
      )

  -- One call of a `record…` method.
  pub record_update-IsSound :
      (c : Call) (m : Metrics fl zero_time)
      → EveryHost m
      → (m' : Metrics fl zero_time) × (record_update fl zero_time c.host c.endpoint c.update c.now
            c.now' m
          ≡ some m')
        × EveryHost m'
  unfolding record_update update_metrics
  record_update-IsSound c m h =
      let (hm', e, valid) =
        update_host-IsSound c.endpoint c.update c.now c.now' _ (host_metrics-IsSound c.host m h) in
      (insert c.host hm' m, rw (e, update_metrics) refl, insert_every IsSound c.host hm' m valid h)

  unfoldable pub run : List Call → Metrics fl zero_time → Option (Metrics fl zero_time)
  run [] m = some m
  run (c ∷ cs) m = elim (record_update fl zero_time c.host c.endpoint c.update c.now c.now' m) [
    | none ↦ none
    | some m' ↦ run cs m'
  ]

  run-EveryHost :
      (cs : List Call) (m : Metrics fl zero_time)
      → EveryHost m
      → (m' : Metrics fl zero_time) × (run cs m ≡ some m') × EveryHost m'
  unfolding run
  run-EveryHost [] m h = (m, refl, h)
  run-EveryHost (c ∷ cs) m h =
      let (m1, e, h1) = record_update-IsSound c m h in
      let (m2, e', h2) = run-EveryHost cs m1 h1 in (m2, rw (e, run) e', h2)

  -- Any sequence of updates from no metrics ends without a panic. In every host the keys are then
  -- distinct, "::root" is among them, there are at most 1026 entries, or 1027 with "::other", and
  -- each of the five counters of "::root" is the sum of that counter over all other entries, modulo
  -- 2 ^ 64.
  pub run-IsSound :
      (cs : List Call) → (m : Metrics fl zero_time) × (run cs [] ≡ some m) × EveryHost m
  unfolding lookup
  run-IsSound cs = run-EveryHost cs [] (λ h hm e. cc)
