-- ===== src/Root/Plain.antt =====
-- Circuit breakers without options.
use Prim.Native.String.{String}
use circuit_breaker.Base.{
  ℕ, ◌≡◌, refl, ap, true, Option, none, some, List, [], ◌∷◌, Option-cases, inl, inr,
}
use circuit_breaker.Base.Int.{ℤ}
use circuit_breaker.Float.{Float}
use circuit_breaker.Dict.{lookup}
use circuit_breaker.Circuit
use circuit_breaker.Circuit.{Circuit, init_token_bucket, new_circuit}
use circuit_breaker.Options
use circuit_breaker.Options.{Setting, apply_settings}
use circuit_breaker.Manager.{BreakerConfig, Manager, ok, register, get_or_create}
use circuit_breaker.Manager.Registry.{IsRegistry}
use circuit_breaker.Spec
use circuit_breaker.Spec.{BreakerSpec, check_specs, provide, provide_all}
use circuit_breaker.Spec.Phases.{AllAcceptable, check_specs_iff}
use circuit_breaker.Root.{new_circuit_breaker, new_circuit_breaker_with_options, configure_manager}

-- Every option is nil.
abbrev pub AllNil : List (Option Setting) → Type 0
AllNil [] = Unit
AllNil (none ∷ opts) = AllNil opts
AllNil (some opt ∷ opts) = ⊥

apply_settings-AllNil :
    (opts : List (Option Setting)) (cb : Circuit) → AllNil opts → apply_settings opts cb ≡ cb
unfolding apply_settings
apply_settings-AllNil [] cb h = refl
apply_settings-AllNil (none ∷ opts) cb h = apply_settings-AllNil opts cb h
apply_settings-AllNil (some opt ∷ opts) cb h = absurd h

-- No specification has an option.
abbrev pub ArePlain : List (String × BreakerSpec) → Type 0
ArePlain [] = Unit
ArePlain ((name, spec) ∷ specs) = AllNil spec.options × ArePlain specs

module _ {F : Type 0} (fl : Float F) where
  -- Without options, or with nil options only, `NewCircuitBreakerWithOptions` makes what
  -- `NewCircuitBreaker` makes.
  pub new_circuit_breaker_with_options-AllNil :
      (name : String) (mc mr w rs : ℤ) (opts : List (Option Setting))
      → AllNil opts
      → new_circuit_breaker_with_options fl name mc mr w rs opts
        ≡ new_circuit_breaker fl name mc mr w rs
  unfolding new_circuit_breaker new_circuit_breaker_with_options Circuit.new_circuit_breaker
      Options.new_circuit_breaker_with_options
  new_circuit_breaker_with_options-AllNil name mc mr w rs opts h =
      ap (init_token_bucket fl) (apply_settings-AllNil opts (new_circuit name mc mr w rs) h)

  provide-get_or_create :
      (name : String) (spec : BreakerSpec) (m : Manager)
      → AllNil spec.options
      → provide fl name spec m ≡ get_or_create fl name spec.config m
  unfolding provide get_or_create new_circuit_breaker new_circuit_breaker_with_options
  provide-get_or_create name spec m h =
      let c = spec.config in
      let same =
        new_circuit_breaker_with_options-AllNil name c.max_concurrent c.max_requests
          c.window_seconds c.max_retries spec.options h in
      elim (Option-cases (lookup name m.cb)) [
        | inl e ↦ simp (e, provide, get_or_create) (ap (λ cb. register name cb c m) same)
        | inr (handle, e) ↦ simp (e, provide, get_or_create) refl
      ]

  -- The manager's `NewCircuitBreaker`, called for one name after the other.
  pub create_all : List (String × BreakerSpec) → Manager → List (String × ℕ) × Manager
  create_all [] m = ([], m)
  create_all ((name, spec) ∷ specs) m =
      let (handle, m') = get_or_create fl name spec.config m in
      let (out, m'') = create_all specs m' in ((name, handle) ∷ out, m'')

  provide_all-create_all :
      (specs : List (String × BreakerSpec)) (m : Manager)
      → ArePlain specs
      → provide_all fl specs m ≡ create_all specs m
  unfolding provide_all create_all
  provide_all-create_all [] m h = refl
  provide_all-create_all ((name, spec) ∷ specs) m (h, hs) =
      let one = provide-get_or_create name spec m h in
      let m' = (get_or_create fl name spec.config m).1 in
      rw (one, provide_all-create_all specs m' hs) refl

  -- With a manager of this package, whose maps agree, and acceptable specifications without
  -- options, `ConfigureManager` does what calls of the manager's `NewCircuitBreaker` do, one after
  -- the other in the order of the names, and returns their breakers.
  pub configure_manager-create_all :
      (z : BreakerConfig) (specs : List (String × BreakerSpec)) (m : Manager)
      → IsRegistry m
      → AllAcceptable specs m
      → ArePlain specs
      → configure_manager fl z true specs m ≡ (ok (create_all specs m).0, (create_all specs m).1)
  unfolding configure_manager Spec.configure_manager
  configure_manager-create_all z specs m r acceptable plain =
      let good : check_specs z specs m ≡ none = (check_specs_iff z specs m r).1 acceptable in
      simp (good, provide_all-create_all specs m plain, Spec.configure_manager) refl
