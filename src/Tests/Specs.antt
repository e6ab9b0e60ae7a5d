-- ===== src/Tests/Specs.antt =====
-- Two visits of a map of specifications, and a breaker that is made from one.
use Prim.Native.String.{String}
use text.Mathlib.TextEquality.{eq_iff}
use circuit_breaker.Base.{ℕ, none, some, get_elem?, ◌≡◌, refl, List, [], ◌∷◌, true, arith}
use circuit_breaker.Dict.{lookup, insert, keys, AreDistinct}
use circuit_breaker.Manager.{Manager, new_manager, ok, register, get_circuit_breaker}
use circuit_breaker.Spec.{
  BreakerSpec, configure_manager, configure_map, check_specs, check_spec, provide_all, provide,
}
use circuit_breaker.Spec.Registry.{ClientCall, manage, configure, answer_all, answer_all-IsRegistry}
use circuit_breaker.Manager.Registry.{IsRegistry, create, create_strict, discard, halt}
use circuit_breaker.Spec.Sorted.{IsAscending}
use circuit_breaker.Spec.Order.{configure_map_any_order}
use circuit_breaker.Spec.Limits.{configure_manager-KeepsLimits}
use circuit_breaker.Shared.Limits.{KeepsLimits, burst, no_option}
use circuit_breaker.Options.{with_burst}
use circuit_breaker.Circuit.{Circuit}
use circuit_breaker.Base.Int.{pos}
use circuit_breaker.Tests.Figures.{whole}
use circuit_breaker.Tests.Registry.{plain, wide, zero_config}
use circuit_breaker.Tests.Sorting.{le, sort, sort-IsSort}

abbrev small : BreakerSpec
small = record { config = plain; options = [] }

abbrev large : BreakerSpec
large = record { config = wide; options = [] }

abbrev zero_spec : BreakerSpec
zero_spec = record { config = zero_config; options = [] }

abbrev visited : List (String × BreakerSpec)
visited = ("b", large) ∷ ("a", small) ∷ []

abbrev again_visited : List (String × BreakerSpec)
again_visited = ("a", small) ∷ ("b", large) ∷ []

visited-AreDistinct : AreDistinct visited × AreDistinct again_visited
unfolding lookup
visited-AreDistinct = ((refl, (refl, tt)), (refl, (refl, tt)))

same_map : (name : String) → lookup name visited ≡ lookup name again_visited
unfolding lookup
same_map name = ground (arith, eq_iff "a" name, eq_iff "b" name, eq_iff "a" "b")

configure_map_any_order_example :
    (configure_map whole sort zero_spec zero_config true visited (new_manager [])
      ≡ configure_map whole sort zero_spec zero_config true again_visited (new_manager []))
    × ((entries : List (String × BreakerSpec)) × (configure_map whole sort zero_spec zero_config
            true visited
            (new_manager [])
          ≡ configure_manager whole zero_config true entries (new_manager []))
        × IsAscending le (keys entries)
        × AreDistinct entries
        × ((name : String) → lookup name entries ≡ lookup name visited))
configure_map_any_order_example =
    configure_map_any_order whole sort-IsSort zero_spec zero_config true visited again_visited
      (new_manager []) visited-AreDistinct.0 visited-AreDistinct.1 same_map

abbrev bursty : BreakerSpec
bursty = record { config = wide; options = some (with_burst (pos 4)) ∷ none ∷ [] }

abbrev one_spec : List (String × BreakerSpec)
one_spec = ("c", bursty) ∷ []

configured :
    (out : List (String × ℕ)) × (m : Manager) × (configure_manager whole zero_config true one_spec
        (new_manager [])
      ≡ (ok out, m))
unfolding configure_manager check_specs check_spec provide_all provide register new_manager lookup
    insert
configured = (_, _, refl)

found_first : lookup "c" one_spec ≡ some bursty
unfolding lookup
found_first = refl

not_yet : get_circuit_breaker "c" (new_manager []) ≡ none
unfolding get_circuit_breaker new_manager lookup
not_yet = refl

configure_manager-KeepsLimits_example :
    (h : ℕ) × (cb : Circuit) × (get_circuit_breaker "c" configured.1 ≡ some h)
    × (get_elem? configured.1.objects h ≡ some cb)
    × KeepsLimits 8 4 cb
configure_manager-KeepsLimits_example =
    configure_manager-KeepsLimits whole zero_config one_spec (new_manager []) configured.1
      configured.0 configured.2 "c" bursty found_first not_yet (burst (pos 4), (no_option, tt)) 8 10
      1 (pos 2) refl (omega arith) (omega arith) (omega arith) (omega arith)

abbrev client_calls : List ClientCall
client_calls =
    manage (create "a" plain)
    ∷ configure true visited
    ∷ manage (create_strict "a" wide)
    ∷ manage (discard "b")
    ∷ manage halt
    ∷ configure true one_spec
    ∷ []

answer_all-IsRegistry_example :
    IsRegistry (answer_all whole sort zero_spec zero_config client_calls (new_manager []))
answer_all-IsRegistry_example =
    answer_all-IsRegistry whole sort zero_spec zero_config client_calls []
