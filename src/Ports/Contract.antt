-- ===== src/Ports/Contract.antt =====
-- What a client may expect of a manager, and that the manager of this package offers it.
use Prim.Native.String.{String}
use circuit_breaker.Base.{◌≡◌, ◌≢◌, none, some}
use circuit_breaker.Float.{Float}
use circuit_breaker.Manager.{BreakerConfig}
use circuit_breaker.Manager.Registry.{IsRegistry}
use circuit_breaker.Manager.Lifecycle.{get_or_create_lem}
use circuit_breaker.Manager.Shutdown.{stop_all_lem, remove_lem}
use circuit_breaker.Ports.{IManager, IManagerLifecycle, manager_port, lifecycle_port}

-- `Valid` are the states in which names can be removed.
pub record IsRegistering {S : Type 0} (Valid : S → Type 0) (m : IManager S)
    (lc : IManagerLifecycle S) : Type 0 where
  pub found :
      (name : String) (config : BreakerConfig) (s : S)
      → let (handle, s') = m.new_breaker name config s in m.get_breaker name s' ≡ some handle
  pub again :
      (name : String) (config other : BreakerConfig) (s : S)
      → let (handle, s') = m.new_breaker name config s in m.new_breaker name other s' ≡ (handle, s')
  pub others :
      (name j : String) (config : BreakerConfig) (s : S)
      → name ≢ j
      → m.get_breaker j (m.new_breaker name config s).1 ≡ m.get_breaker j s
  pub removed :
      (name : String) (s : S) → Valid s → m.get_breaker name (lc.remove_breaker name s) ≡ none
  pub spared :
      (name j : String) (s : S)
      → Valid s
      → name ≢ j
      → m.get_breaker j (lc.remove_breaker name s) ≡ m.get_breaker j s
  pub stopped :
      (name : String) (s : S) → m.get_breaker name (lc.stop_breakers s) ≡ m.get_breaker name s

-- The manager of pkg keeps the contract of a registry, in every state in which its maps agree.
pub manager-IsRegistering :
    {F : Type 0} (fl : Float F) → IsRegistering IsRegistry (manager_port fl) lifecycle_port
manager-IsRegistering fl = record {
  found = λ name config s. (get_or_create_lem fl name config s).0;
  again = λ name config other s. (get_or_create_lem fl name config s).4 other;
  others = λ name j config s ne. (get_or_create_lem fl name config s).1 j ne;
  removed = λ name s v. (remove_lem name s v).0;
  spared = λ name j s v ne. (remove_lem name s v).1 j ne;
  stopped = λ name s. (stop_all_lem s).0 name;
}
