-- ===== src/Tests/Registry.antt =====
-- The manager of pkg/manager.go with two breakers.
use Prim.Native.String.{String}
use circuit_breaker.Base.{
  List, true, ℕ, refl, inl, inr, ◌≡◌, ◌≢◌, ◌⊎◌, [], ◌∷◌, none, some, length, get_elem?,
}
use circuit_breaker.Base.Int.{pos}
use circuit_breaker.Dict.{lookup, insert, AreDistinct}
use circuit_breaker.Circuit.{Circuit}
use circuit_breaker.Manager.{
  BreakerConfig, Manager, divergent, ok, err, new_manager, make, get_or_create,
  get_or_create_strict, get_circuit_breaker, remove, stop_all, register,
}
use circuit_breaker.Manager.Registry.{
  IsRegistry, create, perform, perform_all, perform_all-IsRegistry,
}
use circuit_breaker.Manager.Lifecycle.{get_or_create_lem, get_or_create_strict_lem}
use circuit_breaker.Manager.Stopping.{IsStopped, IsStoppedAt}
use circuit_breaker.Manager.Shutdown.{stop_all_lem, remove_lem}
use circuit_breaker.Dict.{keys}
use circuit_breaker.Manager.{ManagerError, stop_each}
use mathlib.Core.List.{Permᴰ}
use circuit_breaker.Spec.{
  BreakerSpec, configure_manager, check_specs, check_spec, provide_all, provide,
}
use circuit_breaker.Spec.Again.{configure_manager_again}
use circuit_breaker.Root
use circuit_breaker.Root.Plain.{create_all, configure_manager-create_all}
use circuit_breaker.Spec.Phases.{AllAcceptable, Found, configure_manager_lem}
use circuit_breaker.Tests.Figures.{whole}

abbrev pub plain : BreakerConfig
plain = record {
  max_concurrent = pos 1;
  max_requests = pos 10;
  window_seconds = pos 1;
  max_retries = pos 2;
}

abbrev pub wide : BreakerConfig
wide = record plain { max_concurrent = pos 8 }

abbrev pub zero_config : BreakerConfig
zero_config = record {
  max_concurrent = pos 0;
  max_requests = pos 0;
  window_seconds = pos 0;
  max_retries = pos 0;
}

abbrev two : Manager
two = perform_all whole zero_config (create "a" plain ∷ create "b" wide ∷ []) (new_manager [])

two-IsRegistry : IsRegistry two
two-IsRegistry =
    perform_all-IsRegistry whole zero_config (create "a" plain ∷ create "b" wide ∷ []) []

get_or_create_lem_example :
    (get_circuit_breaker "a" (get_or_create whole "a" wide two).1
      ≡ some (get_or_create whole "a" wide two).0)
    × ((j : String)
        → "a" ≢ j
        → get_circuit_breaker j (get_or_create whole "a" wide two).1 ≡ get_circuit_breaker j two)
    × (get_circuit_breaker "a" two ≢ none → (get_or_create whole "a" wide two).1 ≡ two)
    × (get_circuit_breaker "a" two ≡ none
        → ((get_or_create whole "a" wide two).0 ≡ length two.objects)
          × (get_elem?
                (get_or_create whole "a" wide two).1.objects
                (get_or_create whole "a" wide two).0
              ≡ some (make whole "a" wide))
          × (lookup "a" (get_or_create whole "a" wide two).1.cfg ≡ some wide))
    × ((other : BreakerConfig)
        → get_or_create whole "a" other (get_or_create whole "a" wide two).1
          ≡ ((get_or_create whole "a" wide two).0, (get_or_create whole "a" wide two).1))
get_or_create_lem_example = get_or_create_lem whole "a" wide two

get_or_create_strict_lem_example :
    ((got : BreakerConfig)
      → lookup "a" two.cfg ≡ some got
      → got ≢ wide
      → get_or_create_strict whole zero_config "a" wide two ≡ (err (divergent "a" got wide), two))
    × ((lookup "a" two.cfg ≡ none) ⊎ (lookup "a" two.cfg ≡ some wide)
        → get_or_create_strict whole zero_config "a" wide two
          ≡ (ok (get_or_create whole "a" wide two).0, (get_or_create whole "a" wide two).1))
get_or_create_strict_lem_example =
    get_or_create_strict_lem whole zero_config "a" wide two two-IsRegistry

stop_all_lem_example :
    ((name : String) → get_circuit_breaker name (stop_all two) ≡ get_circuit_breaker name two)
    × ((name : String) (h : ℕ)
        → get_circuit_breaker name two ≡ some h
        → IsStoppedAt h (stop_all two).objects)
    × (stop_all (stop_all two) ≡ stop_all two)
    × ((visited : List (String × ℕ))
        → Permᴰ two.cb visited
        → stop_each visited two.objects ≡ (stop_all two).objects)
stop_all_lem_example = stop_all_lem two

remove_lem_example :
    (get_circuit_breaker "a" (remove "a" two) ≡ none)
    × ((j : String) → "a" ≢ j → get_circuit_breaker j (remove "a" two) ≡ get_circuit_breaker j two)
    × ((h : ℕ) (c : Circuit)
        → get_circuit_breaker "a" two ≡ some h
        → get_elem? two.objects h ≡ some c
        → (c' : Circuit) × (get_elem? (remove "a" two).objects h ≡ some c')
          × IsStopped c'
          × (c' ≡ record c { token_stop = c'.token_stop; refilling = c'.refilling })
          × ((i : ℕ) → h ≢ i → get_elem? (remove "a" two).objects i ≡ get_elem? two.objects i))
    × (get_circuit_breaker "a" two ≡ none → remove "a" two ≡ two)
remove_lem_example = remove_lem "a" two two-IsRegistry

abbrev wanted : List (String × BreakerSpec)
wanted =
    ("a", record { config = plain; options = [] })
    ∷ ("c", record { config = wide; options = [] })
    ∷ []

configure_manager_lem_example :
    ((AllAcceptable wanted two → ⊥)
      × ((e : ManagerError) × (configure_manager whole zero_config true wanted two ≡ (err e, two))))
    ⊎ (AllAcceptable wanted two
        × ((out : List (String × ℕ)) × (m' : Manager) × (configure_manager whole zero_config true
                wanted two
              ≡ (ok out, m'))
            × (keys out ≡ keys wanted)
            × Found out m'
            × ((j : String) (h : ℕ)
                → get_circuit_breaker j two ≡ some h
                → get_circuit_breaker j m' ≡ some h)))
configure_manager_lem_example = configure_manager_lem whole zero_config wanted two two-IsRegistry

-- What the first call gives out, and the manager after it.
given :
    (out : List (String × ℕ)) × (m' : Manager) × (configure_manager whole zero_config true wanted
        two
      ≡ (ok out, m'))
unfolding configure_manager check_specs check_spec provide_all provide register get_or_create
    new_manager lookup insert perform_all perform
given = (_, _, refl)

wanted-AreDistinct : AreDistinct wanted
unfolding lookup
wanted-AreDistinct = (refl, (refl, tt))

configure_manager_again_example :
    configure_manager whole zero_config true wanted given.1 ≡ (ok given.0, given.1)
configure_manager_again_example =
    configure_manager_again whole zero_config wanted two given.1 given.0 two-IsRegistry
      wanted-AreDistinct given.2

wanted-acceptable : AllAcceptable wanted two
unfolding lookup insert register get_or_create new_manager perform_all perform
wanted-acceptable = ((refl, inr refl), ((refl, inl refl), tt))

configure_manager-create_all_example :
    Root.configure_manager whole zero_config true wanted two
    ≡ (ok (create_all whole wanted two).0, (create_all whole wanted two).1)
configure_manager-create_all_example =
    configure_manager-create_all whole zero_config wanted two two-IsRegistry wanted-acceptable
      (tt, (tt, tt))
