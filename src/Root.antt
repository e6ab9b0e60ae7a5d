-- ===== src/Root.antt =====
-- circuitbreaker.go: the package at the root of the module, whose functions are those of pkg.
pub mod Plain
use Prim.Native.String.{String}
use circuit_breaker.Base.{ℕ, Bool, Option, List}
use circuit_breaker.Base.Int.{ℤ}
use circuit_breaker.Float.{Float}
use circuit_breaker.Errors.{Err}
use circuit_breaker.Circuit
use circuit_breaker.Circuit.{Circuit}
use circuit_breaker.Options
use circuit_breaker.Options.{Setting}
use circuit_breaker.Manager
use circuit_breaker.Manager.{BreakerConfig, Manager, Result}
use circuit_breaker.Spec
use circuit_breaker.Spec.{BreakerSpec}

unfoldable pub with_breaker : ℤ → ℤ → ℤ → ℤ → Setting
with_breaker zero_time failures open_for half_open_probes =
    Options.with_breaker zero_time failures open_for half_open_probes

unfoldable pub with_status_code_failure : ℤ → Setting
with_status_code_failure min = Options.with_status_code_failure min

unfoldable pub with_retry_policy : Option (Err → Bool) → Setting
with_retry_policy fn = Options.with_retry_policy fn

unfoldable pub with_exponential_backoff : ℤ → ℤ → Bool → Setting
with_exponential_backoff base max jitter = Options.with_exponential_backoff base max jitter

unfoldable pub with_default_timeout : ℤ → Setting
with_default_timeout d = Options.with_default_timeout d

unfoldable pub with_burst : ℤ → Setting
with_burst n = Options.with_burst n

unfoldable pub with_retry_after : ℤ → Setting
with_retry_after max_wait = Options.with_retry_after max_wait

unfoldable pub new_manager : List Circuit → Manager
new_manager objects = Manager.new_manager objects

module _ {F : Type 0} (fl : Float F) where
  unfoldable pub new_circuit_breaker : String → ℤ → ℤ → ℤ → ℤ → Circuit
  new_circuit_breaker name max_concurrent max_requests window_seconds max_retries =
      Circuit.new_circuit_breaker fl name max_concurrent max_requests window_seconds max_retries

  unfoldable pub new_circuit_breaker_with_options :
      String → ℤ → ℤ → ℤ → ℤ → List (Option Setting) → Circuit
  new_circuit_breaker_with_options name max_concurrent max_requests window_seconds max_retries
        opts =
      Options.new_circuit_breaker_with_options fl name max_concurrent max_requests window_seconds
        max_retries opts

  unfoldable pub configure_manager :
      BreakerConfig
      → Bool
      → List (String × BreakerSpec)
      → Manager
      → Result (List (String × ℕ)) × Manager
  configure_manager zero_config ours specs m = Spec.configure_manager fl zero_config ours specs m
