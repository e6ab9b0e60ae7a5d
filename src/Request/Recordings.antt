-- ===== src/Request/Recordings.antt =====
-- What a call of `Do` records: the updates, under its host and endpoint, and what one of them does.
use Prim.Native.String.{String}
use circuit_breaker.Base.{
  ℕ, ◌+◌, ◌%◌, ◌^◌, ◌≡◌, ◌≢◌, refl, sym, ap, ◌∙◌, List, [], ◌∷◌, Option, none, some, inl, inr,
  Option-cases,
}
use circuit_breaker.Base.Int.{ℤ}
use circuit_breaker.Float.{Float}
use circuit_breaker.Dict.{lookup, insert, lookup-insert_self, lookup-insert_ne}
use circuit_breaker.Endpoint.{EndpointState, Update, new_endpoint, apply}
use circuit_breaker.Metrics.{
  root, Host, host_metrics, update_metrics, Metrics, record_update, state_or_new,
}
use circuit_breaker.Metrics.Hosts.{update_host-Updated}
use circuit_breaker.Metrics.Runs.{
  Counter, value, delta, value-apply, value-new, Call, EveryHost, host_metrics-IsSound,
}
use circuit_breaker.Request.{Action, recorded, Request, endpoint_of}

abbrev pub update_of : Action → Option Update
update_of (recorded u) = some u
update_of _ = none

-- The recordings of a trace. `clock` has the readings inside them: each calls its closure twice.
unfoldable pub calls_of : Request → (ℕ → ℤ) → ℕ → List Action → List Call
calls_of req clock n [] = []
calls_of req clock n (a ∷ acts) = elim (update_of a) [
  | none ↦ calls_of req clock n acts
  | some u ↦
      record {
        host = req.host;
        endpoint = endpoint_of req;
        update = u;
        now = clock n;
        now' = clock (n + 1);
      }
      ∷ calls_of req clock (n + 2) acts
]

pub calls_of_recorded :
    (req : Request) (clock : ℕ → ℤ) (n : ℕ) (a : Action) (acts : List Action) (u : Update)
    → update_of a ≡ some u
    → calls_of req clock n (a ∷ acts)
      ≡ record {
        host = req.host;
        endpoint = endpoint_of req;
        update = u;
        now = clock n;
        now' = clock (n + 1);
      }
        ∷ calls_of req clock (n + 2) acts
unfolding calls_of
calls_of_recorded req clock n a acts u e = simp (e, calls_of) refl

-- What an action adds to a counter.
abbrev pub delta_of : Counter → Option Update → ℕ
delta_of c none = 0
delta_of c (some u) = delta c u

abbrev pub adds : Counter → Action → ℕ
adds c a = delta_of c (update_of a)

module _ {F : Type 0} (fl : Float F) (zero_time : ℤ) where
  -- A counter of a host's "::root", 0 for a host that has no metrics yet.
  abbrev pub root_value : Counter → Option (EndpointState F) → ℕ
  root_value c none = 0
  root_value c (some r) = value c r

  abbrev pub host_value : Counter → Option (Host (EndpointState F)) → ℕ
  host_value c none = 0
  host_value c (some hm) = root_value c (lookup root hm)

  abbrev pub root_total : Counter → String → Metrics fl zero_time → ℕ
  root_total c host m = host_value c (lookup host m)

  new_root :
      lookup root (host_metrics (new_endpoint fl zero_time) none) ≡ some (new_endpoint fl zero_time)
  unfolding host_metrics lookup
  new_root = refl

  fresh_root :
      (c : Counter) (host : String) (m : Metrics fl zero_time) (r : EndpointState F)
      → lookup root (host_metrics (new_endpoint fl zero_time) (lookup host m)) ≡ some r
      → value c r ≡ root_total c host m
  unfolding host_metrics
  fresh_root c host m r e = elim (Option-cases (lookup host m)) [
    | inl n ↦
        let same : some (new_endpoint fl zero_time) ≡ some r =
          sym new_root ∙ (rw (n, host_metrics) at e) in
        let zero = value-new fl zero_time c in
        let fresh : value c (new_endpoint fl zero_time) ≡ value c r = ap (root_value c) same in
        rw (n) (sym fresh ∙ zero)
    | inr (hm, n) ↦ rw (n) (sym (ap (root_value c) (rw (n, host_metrics) at e)))
  ]

  -- One recording.
  pub record_update_root :
      (c : Counter) (call : Call) (m m' : Metrics fl zero_time)
      → EveryHost fl zero_time m
      → record_update fl zero_time call.host call.endpoint call.update call.now call.now' m
        ≡ some m'
      → (root_total c call.host m' % 2 ^ 64
          ≡ (root_total c call.host m + delta c call.update) % 2 ^ 64)
        × ((j : String) → call.host ≢ j → lookup j m' ≡ lookup j m)
  unfolding record_update update_metrics
  record_update_root c call m m' h e =
      let new = new_endpoint fl zero_time in
      let hm = host_metrics new (lookup call.host m) in
      let sound = host_metrics-IsSound fl zero_time call.host m h in
      let f = apply fl call.update call.now in
      let g = apply fl call.update call.now' in
      let up = update_host-Updated new call.endpoint f g hm sound.host in
      let mid = insert up.key (f (state_or_new new (lookup up.key hm))) hm in
      let hm' = insert root (g up.old_root) mid in
      let same : insert call.host hm' m ≡ m' = cc (up.result) in
      let now : lookup root hm' ≡ some (g up.old_root) =
        lookup-insert_self root (g up.old_root) mid in
      let there : lookup call.host m' ≡ some hm' =
        rw (← same) (lookup-insert_self call.host hm' m) in
      let before = fresh_root c call.host m up.old_root up.at_root in
      let grown = value-apply fl zero_time c call.update call.now' up.old_root in
      (rw (there, now, ← before) grown, λ j ne. rw (← same) (lookup-insert_ne call.host j hm' m ne))
