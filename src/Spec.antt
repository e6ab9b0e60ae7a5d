-- ===== src/Spec.antt =====
-- pkg/spec.go: `ConfigureManager`, on the map of the specifications (`configure_map`), and on its
-- entries in the order of their sorted names (`configure_manager`).
pub mod Phases
pub mod Again
pub mod Sorted
pub mod Order
pub mod Limits
pub mod Registry
use Prim.Native.String.{String}
use circuit_breaker.Base.{
  ℕ, Bool, true, false, not, ◌&&◌, ◌||◌, Option, none, some, List, [], ◌∷◌, ◌++◌, if◌then◌else◌,
  length, map,
}
use circuit_breaker.Base.Int.{ℤ, pos, ltb_ℤ}
use circuit_breaker.Float.{Float}
use circuit_breaker.Dict.{lookup, insert, keys}
use circuit_breaker.Circuit.{Circuit}
use circuit_breaker.Options.{Setting, new_circuit_breaker_with_options}
use circuit_breaker.Manager.{
  BreakerConfig, same_config, Manager, ManagerError, divergent, inconsistent, foreign_manager,
  Result, ok, err, register,
}

pub record BreakerSpec : Type 0 where
  pub config : BreakerConfig
  pub options : List (Option Setting)

-- `(spec.MaxRequests > 0) != (spec.WindowSeconds > 0)`
abbrev pub is_half_set : BreakerConfig → Bool
is_half_set c =
    if ltb_ℤ (pos 0) c.max_requests
    then not (ltb_ℤ (pos 0) c.window_seconds)
    else ltb_ℤ (pos 0) c.window_seconds

-- The check of one specification. The manager has a configuration for every name that it has; the
-- zero value stands for one that it lacks.
unfoldable pub check_spec : BreakerConfig → String → BreakerSpec → Manager → Option ManagerError
check_spec zero_config name spec m =
    let want = spec.config in
    if is_half_set want
    then some (inconsistent name want.max_requests want.window_seconds)
    else elim (lookup name m.cb) [
      | none ↦ none
      | some _ ↦
          let got : BreakerConfig = elim (lookup name m.cfg) [ none ↦ zero_config | some c ↦ c ] in
          if same_config got want then none else some (divergent name got want)
    ]

-- The first phase: the first error.
unfoldable pub check_specs :
    BreakerConfig → List (String × BreakerSpec) → Manager → Option ManagerError
check_specs zero_config [] m = none
check_specs zero_config ((name, spec) ∷ specs) m =
    let later = check_specs zero_config specs m in
    elim (check_spec zero_config name spec m) [ none ↦ later | some e ↦ some e ]

-- `specs[name]`
abbrev pub spec_or : BreakerSpec → Option BreakerSpec → BreakerSpec
spec_or zero_spec none = zero_spec
spec_or zero_spec (some spec) = spec

-- The entries of the map in the order of their sorted names. `sort` stands for `sort.Strings`, and
-- `zero_spec` is the zero value, for a name that the map lacks.
unfoldable pub in_order :
    (List String → List String)
    → BreakerSpec
    → List (String × BreakerSpec)
    → List (String × BreakerSpec)
in_order sort zero_spec specs =
    map (λ name. (name, spec_or zero_spec (lookup name specs))) (sort (keys specs))

module _ {F : Type 0} (fl : Float F) where
  -- The object under the name, or a new one with the options.
  unfoldable pub provide : String → BreakerSpec → Manager → ℕ × Manager
  provide name spec m = elim (lookup name m.cb) [
    | some handle ↦ (handle, m)
    | none ↦
        register name
          (new_circuit_breaker_with_options fl name spec.config.max_concurrent
            spec.config.max_requests spec.config.window_seconds spec.config.max_retries
            spec.options)
          spec.config m
  ]

  -- The second phase.
  unfoldable pub provide_all : List (String × BreakerSpec) → Manager → List (String × ℕ) × Manager
  provide_all [] m = ([], m)
  provide_all ((name, spec) ∷ specs) m =
      let (handle, m') = provide name spec m in
      let (out, m'') = provide_all specs m' in ((name, handle) ∷ out, m'')

  -- `ours` is the type assertion to the manager of this package.
  unfoldable pub configure_manager :
      BreakerConfig
      → Bool
      → List (String × BreakerSpec)
      → Manager
      → Result (List (String × ℕ)) × Manager
  configure_manager zero_config ours specs m =
      if not ours then (err foreign_manager, m) else elim (check_specs zero_config specs m) [
        | some e ↦ (err e, m)
        | none ↦ let (out, m') = provide_all specs m in (ok out, m')
      ]

  -- `ConfigureManager` on the map itself.
  unfoldable pub configure_map :
      (List String → List String)
      → BreakerSpec
      → BreakerConfig
      → Bool
      → List (String × BreakerSpec)
      → Manager
      → Result (List (String × ℕ)) × Manager
  configure_map sort zero_spec zero_config ours specs m =
      configure_manager zero_config ours (in_order sort zero_spec specs) m
