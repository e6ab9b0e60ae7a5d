-- ===== src/Spec/Registry.antt =====
-- The calls of a client of pkg/manager.go and of `ConfigureManager` of pkg/spec.go, in any order.
use Prim.Native.String.{String}
use circuit_breaker.Base.{Bool, true, false, Option-cases, inl, inr, List, [], ◌∷◌}
use circuit_breaker.Float.{Float}
use circuit_breaker.Dict.{lookup}
use circuit_breaker.Circuit.{Circuit}
use circuit_breaker.Options.{new_circuit_breaker_with_options}
use circuit_breaker.Manager.{BreakerConfig, Manager, new_manager}
use circuit_breaker.Manager.Registry.{
  IsRegistry, Op, perform, perform-IsRegistry, register-IsRegistry, new_manager-IsRegistry,
}
use circuit_breaker.Spec.{
  BreakerSpec, check_specs, provide, provide_all, configure_manager, configure_map, in_order,
}

-- A call of the manager, or of `ConfigureManager` on it; `ours` is that the manager passed is one of
-- the package.
pub data ClientCall : Type 0 where
  manage : Op → ClientCall
  configure : (ours : Bool) → List (String × BreakerSpec) → ClientCall

module _ {F : Type 0} (fl : Float F) (sort : List String → List String) (zero_spec : BreakerSpec)
    (zero_config : BreakerConfig) where
  unfoldable pub answer : ClientCall → Manager → Manager
  answer (manage o) m = perform fl zero_config o m
  answer (configure ours specs) m = (configure_map fl sort zero_spec zero_config ours specs m).1

  unfoldable pub answer_all : List ClientCall → Manager → Manager
  answer_all [] m = m
  answer_all (call ∷ calls) m = answer_all calls (answer call m)

  provide-IsRegistry :
      (name : String) (spec : BreakerSpec) (m : Manager)
      → IsRegistry m
      → IsRegistry (provide fl name spec m).1
  unfolding provide
  provide-IsRegistry name spec m r = elim (Option-cases (lookup name m.cb)) [
    | inl e ↦
        rw (e, provide)
          (register-IsRegistry name
            (new_circuit_breaker_with_options fl name spec.config.max_concurrent
              spec.config.max_requests spec.config.window_seconds spec.config.max_retries
              spec.options)
            spec.config m r)
    | inr (h, e) ↦ rw (e, provide) r
  ]

  provide_all-IsRegistry :
      (specs : List (String × BreakerSpec)) (m : Manager)
      → IsRegistry m
      → IsRegistry (provide_all fl specs m).1
  unfolding provide_all
  provide_all-IsRegistry [] m r = r
  provide_all-IsRegistry ((name, spec) ∷ specs) m r =
      provide_all-IsRegistry specs (provide fl name spec m).1 (provide-IsRegistry name spec m r)

  configure_manager-IsRegistry :
      (ours : Bool) (specs : List (String × BreakerSpec)) (m : Manager)
      → IsRegistry m
      → IsRegistry (configure_manager fl zero_config ours specs m).1
  unfolding configure_manager
  configure_manager-IsRegistry false specs m r = r
  configure_manager-IsRegistry true specs m r =
      elim (Option-cases (check_specs zero_config specs m)) [
        | inl e ↦ rw (e, configure_manager) (provide_all-IsRegistry specs m r)
        | inr (x, e) ↦ rw (e, configure_manager) r
      ]

  answer-IsRegistry : (call : ClientCall) (m : Manager) → IsRegistry m → IsRegistry (answer call m)
  unfolding answer configure_map
  answer-IsRegistry (manage o) m r = perform-IsRegistry fl zero_config o m r
  answer-IsRegistry (configure ours specs) m r =
      configure_manager-IsRegistry ours (in_order sort zero_spec specs) m r

  answers_keep :
      (calls : List ClientCall) (m : Manager) → IsRegistry m → IsRegistry (answer_all calls m)
  unfolding answer_all
  answers_keep [] m r = r
  answers_keep (call ∷ calls) m r = answers_keep calls (answer call m) (answer-IsRegistry call m r)

  -- After any calls of `GetOrCreate`, `GetOrCreateStrict`, `Remove`, `StopAll` and `ConfigureManager`
  -- on a new manager, in any order and whether they succeed or not, both maps have the same names,
  -- each once, and every name leads to an object that exists, in whatever order the sort puts the
  -- names of the specifications.
  pub answer_all-IsRegistry :
      (calls : List ClientCall) (objects : List Circuit)
      → IsRegistry (answer_all calls (new_manager objects))
  answer_all-IsRegistry calls objects =
      answers_keep calls (new_manager objects) (new_manager-IsRegistry fl zero_config objects)
