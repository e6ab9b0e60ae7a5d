-- ===== src/Demo/Limits.antt =====
-- What the demo does to its server and leaves behind.
use Prim.Native.String.{String}
use circuit_breaker.Base.{
  ℕ, zero, suc, ◌*◌, ◌∷◌, total, total-append, ◌≤◌, ◌≡◌, All, All-append, length, length-append,
  refl, ap, ◌∙◌, Option, some, Option-cases, inl, inr, [], arith, get_elem?, set,
}
use circuit_breaker.Base.Int.{ℤ, pos}
use circuit_breaker.Float.{Float}
use circuit_breaker.Dict.{lookup}
use circuit_breaker.Circuit.{Circuit, new_circuit, new_circuit_breaker}
use circuit_breaker.Circuit.Setup.{IsReady, init_token_bucket-IsReady}
use circuit_breaker.Server.{FakeServer, listening, bind, addr, new_fake_server}
use circuit_breaker.Manager.{Manager, new_manager, get_or_create, get_circuit_breaker}
use circuit_breaker.Manager.Lifecycle.{get_or_create_lem}
use circuit_breaker.Manager.Stopping.{IsStoppedAt}
use circuit_breaker.Manager.Shutdown.{stop_all_lem}
use circuit_breaker.Ports.{manager_port, lifecycle_port}
use circuit_breaker.Request.{Request, Env, Run, rounds, do_request}
use circuit_breaker.Request.Tally.{tally, one_sent}
use circuit_breaker.Request.Accounting.{Adds, do_request-Adds}
use circuit_breaker.Shared.Limits.{KeepsLimits, init_token_bucket-limits}
use circuit_breaker.Demo.{
  demo_config, started, start_demo, worker, workers, total_calls, client_timeout, finish_demo,
}

module _ {F : Type 0} (fl : Float F) where
  -- The breaker "google".
  abbrev google : Circuit
  google = new_circuit_breaker fl "google" (pos 50) (pos 200) (pos 30) (pos 5)

  google-IsReady : IsReady 200 30 (new_circuit "google" (pos 50) (pos 200) (pos 30) (pos 5)) google
  unfolding new_circuit_breaker new_circuit
  google-IsReady =
      init_token_bucket-IsReady fl 200 30 (new_circuit "google" (pos 50) (pos 200) (pos 30) (pos 5))
        refl refl (omega arith) (omega arith) (omega arith)

  google_limits : KeepsLimits 50 200 google
  unfolding new_circuit_breaker new_circuit
  google_limits n t r =
      let c = new_circuit "google" (pos 50) (pos 200) (pos 30) (pos 5) in
      let l =
        init_token_bucket-limits fl 50 200 30 c refl refl refl refl (omega arith) (omega arith)
          (omega arith) (omega arith) n t r in
      (l.0, l.1)

  retries : google.max_retries ≡ pos 5
  unfolding new_circuit
  retries = ap (λ (c : Circuit). c.max_retries) google-IsReady.kept ∙ refl

  worker_sends :
      (new_request : String → Option Request) (cb : Circuit) (fs : FakeServer) (env : Env)
      → cb.max_retries ≡ pos 5
      → tally one_sent (worker new_request cb fs env).trace ≤ 6
  unfolding worker Adds do_request
  worker_sends new_request cb fs env e = elim (Option-cases (new_request (addr fs))) [
    | inl bad ↦ simp (bad, worker, do_request) (omega arith)
    | inr (req, good) ↦
        let a = do_request-Adds cb req (some client_timeout) env in
        simp (good, worker) (omega (arith, a.0, a.3, ap rounds e))
  ]

  workers_sends :
      (new_request : String → Option Request) (cb : Circuit) (fs : FakeServer) (env : ℕ → Env)
      (k : ℕ)
      → cb.max_retries ≡ pos 5
      → total (λ (run : Run). tally one_sent run.trace) (workers new_request cb fs env k) ≤ 6 * k
  unfolding workers
  workers_sends new_request cb fs env zero e = omega arith
  workers_sends new_request cb fs env (suc k) e =
      let one = worker_sends new_request cb fs (env k) e in
      let rest = workers_sends new_request cb fs env k e in
      omega (
        arith,
        one,
        rest,
        total-append (λ (run : Run). tally one_sent run.trace) (workers new_request cb fs env k)
            (worker new_request cb fs (env k) ∷ []),
      )

  workers_each :
      (new_request : String → Option Request) (cb : Circuit) (fs : FakeServer) (env : ℕ → Env)
      (k : ℕ)
      → cb.max_retries ≡ pos 5
      → All (λ (run : Run). tally one_sent run.trace ≤ 6) (workers new_request cb fs env k)
  unfolding workers
  workers_each new_request cb fs env zero e = tt
  workers_each new_request cb fs env (suc k) e =
      All-append _ (workers new_request cb fs env k) (worker new_request cb fs (env k) ∷ [])
        (workers_each new_request cb fs env k e) (worker_sends new_request cb fs (env k) e, tt)

  length-workers :
      (new_request : String → Option Request) (cb : Circuit) (fs : FakeServer) (env : ℕ → Env)
      (k : ℕ)
      → length (workers new_request cb fs env k) ≡ k
  unfolding workers
  length-workers new_request cb fs env zero = refl
  length-workers new_request cb fs env (suc k) = omega (
    arith,
    length-append (workers new_request cb fs env k) (worker new_request cb fs (env k) ∷ []),
    length-workers new_request cb fs env k,
  )

  -- When its port is free, the demo puts up the server on that address and finds a breaker in
  -- the manager. However the actions of calls on that breaker, the ticks of its refill and
  -- `Stop` interleave, at most 50 calls hold a slot at once, and the requests sent are at most
  -- 200 more than the tokens that the ticks offered. Each of the demo's 3000 calls sends at most 6
  -- requests, and all together at most 18000. In the end the manager has stopped the breaker, in
  -- whatever state the calls left it: its stop channel, if it has one, is closed and its refill
  -- goroutine has ended. The breaker is still there under its name.
  pub demo-KeepsLimits :
      (now : ℤ) (address : String)
      → (fs : FakeServer) × (m : Manager) × (h : ℕ) × (cb : Circuit) × (start_demo
            (manager_port fl)
            now
            (listening address)
            (new_manager [])
          ≡ started fs m h)
        × (addr fs ≡ address)
        × (get_elem? m.objects h ≡ some cb)
        × KeepsLimits 50 200 cb
        × ((new_request : String → Option Request) (env : ℕ → Env)
            → let calls = workers new_request cb fs env total_calls in
              (length calls ≡ 3_000)
              × All (λ (run : Run). tally one_sent run.trace ≤ 6) calls
              × (total (λ (run : Run). tally one_sent run.trace) calls ≤ 18_000))
        × ((left : Circuit)
            → let (fs', m') =
                finish_demo
                  (some lifecycle_port)
                  fs
                  (record m { objects = set m.objects h left }) in
              IsStoppedAt h m'.objects × (get_circuit_breaker "google" m' ≡ some h))
  unfolding start_demo bind addr new_fake_server finish_demo get_circuit_breaker new_manager lookup
  demo-KeepsLimits now address =
      let fs : FakeServer = record (new_fake_server now) { listener = some address } in
      let (h, m) = get_or_create fl "google" demo_config (new_manager []) in
      let (found, _, _, fresh, _) = get_or_create_lem fl "google" demo_config (new_manager []) in
      (
        fs,
        m,
        h,
        google,
        refl,
        refl,
        (fresh refl).1,
        google_limits,
        λ new_request env. (
          length-workers new_request google fs env total_calls,
          workers_each new_request google fs env total_calls retries,
          workers_sends new_request google fs env total_calls retries,
        ),
        λ left.
            let m' = record m { objects = set m.objects h left } in
            ((stop_all_lem m').1 "google" h found, (stop_all_lem m').0 "google" ∙ found),
      )
