-- ===== src/Metrics.antt =====
-- pkg/circuitbreaker.go, `updateMetrics` and the `record…` methods: the metrics of all hosts, under the
-- metrics lock. `none` is the panic of a missing "::root".
pub mod Hosts
pub mod Totals
pub mod Runs
use Prim.Native.String.{String, ◌++◌}
use text.Mathlib.Text.{◌==◌}
use circuit_breaker.Base.{
  ℕ, suc, ◌≡◌, List, [], ◌∷◌, Option, none, some, if◌then◌else◌, leb, length, Bool, ◌||◌,
}
use circuit_breaker.Base.Int.{ℤ}
use circuit_breaker.Float.{Float}
use circuit_breaker.Dict.{lookup, insert}
use circuit_breaker.Endpoint.{
  EndpointState, EndpointMetrics, Update, attempt, succeed, fail, again, token_cancel, new_endpoint,
  snapshot, apply,
}

abbrev pub root : String
root = "::root"

abbrev pub other : String
other = "::other"

abbrev pub max_endpoints_per_host : ℕ
max_endpoints_per_host = 1026

abbrev pub Host : Type 0 → Type 0
Host S = List (String × S)

abbrev pub Hosts : Type 0 → Type 0
Hosts S = List (String × Host S)

-- A path equal to a synthetic key gets a "/" in front.
unfoldable pub unalias : String → String
unalias endpoint = if endpoint == root || endpoint == other then "/" ++ endpoint else endpoint

module _ {S : Type 0} (new : S) where
  -- `hostMetrics, ok := cb.metrics[host]; if !ok { … }`
  unfoldable pub host_metrics : Option (Host S) → Host S
  host_metrics none = (root, new) ∷ []
  host_metrics (some hm) = hm

  unfoldable pub state_or_new : Option S → S
  state_or_new none = new
  state_or_new (some s) = s

  -- The key under which the update is counted, and the state that it finds there.
  unfoldable pub entry_for : String → Host S → String × S
  unfolding state_or_new
  entry_for endpoint hm = elim (lookup endpoint hm) [
    | some s ↦ (endpoint, s)
    | none ↦
        if leb max_endpoints_per_host (length hm)
        then (other, state_or_new (lookup other hm))
        else (endpoint, new)
  ]

  -- `updateFn(state)`, then `updateFn(hostMetrics["::root"])`; `f` and `g` are the same closure,
  -- which reads the clock anew at each call.
  unfoldable pub update_host : String → (S → S) → (S → S) → Host S → Option (Host S)
  update_host endpoint f g hm =
      let (key, s) = entry_for (unalias endpoint) hm in
      let hm' = insert key (f s) hm in
      elim (lookup root hm') [ none ↦ none | some r ↦ some (insert root (g r) hm') ]

  unfoldable pub update_metrics : String → String → (S → S) → (S → S) → Hosts S → Option (Hosts S)
  unfolding host_metrics
  update_metrics host endpoint f g m =
      elim (update_host endpoint f g (host_metrics (lookup host m))) [
        | none ↦ none
        | some hm ↦ some (insert host hm m)
      ]

module _ {F : Type 0} (fl : Float F) (zero_time : ℤ) where
  abbrev pub Metrics : Type 0
  Metrics = Hosts (EndpointState F)

  -- `now` and `now'` are the clock readings of the two calls of the closure.
  unfoldable pub record_update : String → String → Update → ℤ → ℤ → Metrics → Option Metrics
  record_update host endpoint u now now' =
      update_metrics (new_endpoint fl zero_time) host endpoint (apply fl u now) (apply fl u now')

  unfoldable pub record_attempt : String → String → ℤ → ℤ → ℤ → ℤ → Metrics → Option Metrics
  unfolding record_update
  record_attempt host endpoint start end = record_update host endpoint (attempt start end)

  unfoldable pub record_success : String → String → ℤ → ℤ → ℤ → ℤ → Metrics → Option Metrics
  unfolding record_update
  record_success host endpoint start end = record_update host endpoint (succeed start end)

  unfoldable pub record_failure : String → String → ℤ → ℤ → ℤ → ℤ → Metrics → Option Metrics
  unfolding record_update
  record_failure host endpoint start end = record_update host endpoint (fail start end)

  unfoldable pub record_retry : String → String → ℤ → ℤ → ℤ → ℤ → Metrics → Option Metrics
  unfolding record_update
  record_retry host endpoint start end = record_update host endpoint (again start end)

  -- This closure reads no clock.
  unfoldable pub record_token_cancel : String → String → Metrics → Option Metrics
  unfolding record_update
  record_token_cancel host endpoint = record_update host endpoint token_cancel zero_time zero_time

  -- `Metrics()`: a snapshot of every state.
  pub endpoint_copy : Host (EndpointState F) → List (String × EndpointMetrics F)
  endpoint_copy [] = []
  endpoint_copy ((endpoint, s) ∷ hm) = (endpoint, snapshot fl zero_time s) ∷ endpoint_copy hm

  unfoldable pub metrics : Metrics → List (String × List (String × EndpointMetrics F))
  unfolding endpoint_copy
  metrics [] = []
  metrics ((host, hm) ∷ m) = (host, endpoint_copy hm) ∷ metrics m
