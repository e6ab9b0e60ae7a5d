-- ===== src/Ports.antt =====
-- pkg/ports_manager.go, pkg/ports_circuitbreaker.go and `StateReporter` of pkg/state.go: the
-- interfaces, over the type `S` of the states of what implements them. A breaker is a handle in a
-- state.
pub mod Contract
use Prim.Native.String.{String}
use circuit_breaker.Base.{ℕ, Option, List}
use circuit_breaker.Base.Int.{ℤ}
use circuit_breaker.Float.{Float}
use circuit_breaker.Breaker.{BreakerState, state_of}
use circuit_breaker.Circuit
use circuit_breaker.Circuit.{Circuit}
use circuit_breaker.Metrics
use circuit_breaker.Metrics.{Metrics}
use circuit_breaker.Endpoint.{EndpointMetrics}
use circuit_breaker.Request.{Request, Env, Run, do_request}
use circuit_breaker.Manager
use circuit_breaker.Manager.{BreakerConfig, Manager, Result}

pub record ICircuitBreaker (C M V : Type 0) : Type 0 where
  pub call : C → Option Request → Option ℤ → Env → Run
  pub halt : C → C
  pub read_metrics : M → V

pub record IManager (S : Type 0) : Type 0 where
  pub new_breaker : String → BreakerConfig → S → ℕ × S
  pub get_breaker : String → S → Option ℕ

pub record IManagerLifecycle (S : Type 0) : Type 0 where
  pub list_names : S → List String
  pub remove_breaker : String → S → S
  pub stop_breakers : S → S

pub record IManagerStrict (S : Type 0) : Type 0 where
  pub new_strict : String → BreakerConfig → S → Result ℕ × S

pub record StateReporter (C : Type 0) : Type 0 where
  pub read_state : C → BreakerState

-- What this package has to offer for them.
module _ {F : Type 0} (fl : Float F) where
  abbrev pub breaker_port :
      (zero_time : ℤ)
      → ICircuitBreaker Circuit
          (Metrics fl zero_time)
          (List (String × List (String × EndpointMetrics F)))
  breaker_port zero_time = record {
    call = do_request;
    halt = Circuit.stop;
    read_metrics = Metrics.metrics fl zero_time;
  }

  abbrev pub manager_port : IManager Manager
  manager_port = record {
    new_breaker = Manager.get_or_create fl;
    get_breaker = Manager.get_circuit_breaker;
  }

  abbrev pub strict_port : BreakerConfig → IManagerStrict Manager
  strict_port zero_config = record { new_strict = Manager.get_or_create_strict fl zero_config }

abbrev pub lifecycle_port : IManagerLifecycle Manager
lifecycle_port = record {
  list_names = Manager.list;
  remove_breaker = Manager.remove;
  stop_breakers = Manager.stop_all;
}

abbrev pub reporter_port : StateReporter Circuit
reporter_port = record { read_state = λ c. state_of c.state }
