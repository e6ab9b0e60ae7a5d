-- ===== src/Tests/Demo.antt =====
-- The demo with whole numbers in place of `float64`.
use Prim.Native.String.{String}
use circuit_breaker.Base.{ℕ, total, ◌≤◌, ◌≡◌, All, length, Option, some, [], get_elem?, set}
use circuit_breaker.Base.Int.{pos}
use circuit_breaker.Circuit.{Circuit}
use circuit_breaker.Server.{FakeServer, listening, addr}
use circuit_breaker.Manager.{Manager, new_manager, get_circuit_breaker}
use circuit_breaker.Manager.Stopping.{IsStoppedAt}
use circuit_breaker.Ports.{manager_port, lifecycle_port}
use circuit_breaker.Request.{Request, Env, Run}
use circuit_breaker.Request.Tally.{tally, one_sent}
use circuit_breaker.Shared.Limits.{KeepsLimits}
use circuit_breaker.Demo.{started, start_demo, workers, total_calls, finish_demo}
use circuit_breaker.Demo.Limits.{demo-KeepsLimits}
use circuit_breaker.Tests.Figures.{whole}

demo-KeepsLimits_example :
    (fs : FakeServer) × (m : Manager) × (h : ℕ) × (cb : Circuit) × (start_demo
        (manager_port whole)
        (pos 0)
        (listening "127.0.0.1:8080")
        (new_manager [])
      ≡ started fs m h)
    × (addr fs ≡ "127.0.0.1:8080")
    × (get_elem? m.objects h ≡ some cb)
    × KeepsLimits 50 200 cb
    × ((new_request : String → Option Request) (env : ℕ → Env)
        → let calls = workers new_request cb fs env total_calls in
          (length calls ≡ 3_000)
          × All (λ (run : Run). tally one_sent run.trace ≤ 6) calls
          × (total (λ (run : Run). tally one_sent run.trace) calls ≤ 18_000))
    × ((left : Circuit)
        → let (fs', m') =
            finish_demo (some lifecycle_port) fs (record m { objects = set m.objects h left }) in
          IsStoppedAt h m'.objects × (get_circuit_breaker "google" m' ≡ some h))
demo-KeepsLimits_example = demo-KeepsLimits whole (pos 0) "127.0.0.1:8080"
