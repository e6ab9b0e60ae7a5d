-- ===== src/Demo.antt =====
-- cmd/main.go: the demo, which sends requests to the fake server through a breaker of the manager.
pub mod Limits
use Prim.Native.String.{String}
use circuit_breaker.Base.{ℕ, zero, suc, Option, none, some, List, [], ◌∷◌, ◌++◌}
use circuit_breaker.Base.Int.{ℤ, pos}
use circuit_breaker.Errors.{Err}
use circuit_breaker.Circuit.{Circuit}
use circuit_breaker.Server.{FakeServer, ListenError, Listened, new_fake_server, bind, addr, close}
use circuit_breaker.Manager.{BreakerConfig}
use circuit_breaker.Ports.{IManager, IManagerLifecycle}
use circuit_breaker.Request.{Request, Env, Run, Ending, returned, do_request}

-- 50 at once, 200 in 30 seconds, 5 retries.
abbrev pub demo_config : BreakerConfig
demo_config = record {
  max_concurrent = pos 50;
  max_requests = pos 200;
  window_seconds = pos 30;
  max_retries = pos 5;
}

-- The server is up and the breaker is there, or the port was taken.
pub data Started (S : Type 0) : Type 0 where
  no_server : ListenError → Started S
  started : FakeServer → S → ℕ → Started S

module _ {S : Type 0} (m : IManager S) where
  unfoldable pub start_demo : ℤ → Listened → S → Started S
  start_demo now l s =
      let (e, fs) = bind l (new_fake_server now) in
      elim e [
        | some x ↦ no_server x
        | none ↦ let (handle, s') = m.new_breaker "google" demo_config s in started fs s' handle
      ]

-- `total`
abbrev pub total_calls : ℕ
total_calls = 3_000

-- `10 * time.Second`
abbrev pub client_timeout : ℤ
client_timeout = pos 10_000_000_000

-- One goroutine's call. `new_request` stands for `http.NewRequest` with the path /teste on an address.
unfoldable pub worker : (String → Option Request) → Circuit → FakeServer → Env → Run
worker new_request cb fs env = do_request cb (new_request (addr fs)) (some client_timeout) env

-- The goroutines `i = 0, 1, …` that the loop starts, each with an environment of its own; in what
-- order their actions come is not said here.
unfoldable pub workers : (String → Option Request) → Circuit → FakeServer → (ℕ → Env) → ℕ → List Run
workers new_request cb fs env zero = []
workers new_request cb fs env (suc k) =
    workers new_request cb fs env k ++ worker new_request cb fs (env k) ∷ []

-- What it prints, with its number. A response prints its status, and its body is closed then.
pub data Line : Type 0 where
  error_line : ℕ → Err → Line
  ok_line : ℕ → ℤ → Line

unfoldable pub print_line : ℕ → Ending → Option Line
print_line i (returned resp (some e)) = some (error_line i e)
print_line i (returned (some r) none) = some (ok_line i r.status)
print_line i _ = none

-- After the last call: `StopAll`, if the manager has it, and the deferred `Close` of the server.
unfoldable pub finish_demo :
    {S : Type 0} → Option (IManagerLifecycle S) → FakeServer → S → FakeServer × S
finish_demo none fs s = (close fs, s)
finish_demo (some lc) fs s = (close fs, lc.stop_breakers s)
