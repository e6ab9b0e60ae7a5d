-- ===== src/Spec/Phases.antt =====
-- The two phases of `ConfigureManager`: all or nothing.
use Prim.Native.String.{String}
use text.Mathlib.TextEquality.{eq_iff}
use circuit_breaker.Base.{
  ℕ, ◌≡◌, ◌↔◌, ◌⊎◌, inl, inr, refl, true, false, none, some, List, [], ◌∷◌, arith, Option-cases,
  length,
}
use circuit_breaker.Float.{Float}
use circuit_breaker.Dict.{lookup, keys, lookup-insert}
use circuit_breaker.Manager.{
  BreakerConfig, Manager, ManagerError, ok, err, register, get_circuit_breaker,
}
use circuit_breaker.Manager.Registry.{IsRegistry}
use circuit_breaker.Manager.Lifecycle.{same_config_iff}
use circuit_breaker.Spec.{
  BreakerSpec, is_half_set, check_spec, check_specs, provide, provide_all, configure_manager,
}

-- Both rate limits are set or neither is, and the name is new or has this configuration.
abbrev pub IsAcceptable : String → BreakerSpec → Manager → Type 0
IsAcceptable name spec m =
    (is_half_set spec.config ≡ false)
    × ((lookup name m.cb ≡ none) ⊎ (lookup name m.cfg ≡ some spec.config))

abbrev pub AllAcceptable : List (String × BreakerSpec) → Manager → Type 0
AllAcceptable [] m = Unit
AllAcceptable ((name, spec) ∷ specs) m = IsAcceptable name spec m × AllAcceptable specs m

check_spec_iff :
    (z : BreakerConfig) (name : String) (spec : BreakerSpec) (m : Manager)
    → IsRegistry m
    → (check_spec z name spec m ≡ none) ↔ IsAcceptable name spec m
unfolding check_spec
check_spec_iff z name spec m r = elim (Option-cases (lookup name m.cb)) [
  | inl n ↦ (λ h. ground arith, λ h. ground arith)
  | inr (i, n) ↦ elim (Option-cases (lookup name m.cfg)) [
    | inl c ↦ absurd (r.configured name (λ x. absurd (cc)) c)
    | inr (got, c) ↦
        let same = same_config_iff got spec.config in
        (λ h. (ground arith, inr (ground (arith, same.0))), λ h. ground (arith, same.1))
  ]
]

pub check_specs_iff :
    (z : BreakerConfig) (specs : List (String × BreakerSpec)) (m : Manager)
    → IsRegistry m
    → (check_specs z specs m ≡ none) ↔ AllAcceptable specs m
unfolding check_specs
check_specs_iff z [] m r = (λ h. tt, λ h. refl)
check_specs_iff z ((name, spec) ∷ specs) m r =
    let one = check_spec_iff z name spec m r in
    let more = check_specs_iff z specs m r in
    elim (Option-cases (check_spec z name spec m)) [
      | inl e ↦ (λ h. (one.0 e, more.0 (ground arith)), λ h. simp (e, check_specs) (more.1 h.1))
      | inr (x, e) ↦ (λ h. absurd (ground arith), λ h. absurd (ground (arith, one.1 h.0)))
    ]

-- Every handle that is given out is the one that the name leads to.
abbrev pub Found : List (String × ℕ) → Manager → Type 0
Found [] m = Unit
Found ((name, h) ∷ out) m = (get_circuit_breaker name m ≡ some h) × Found out m

module _ {F : Type 0} (fl : Float F) where
  provide_keeps :
      (name : String) (spec : BreakerSpec) (m : Manager) (j : String) (h : ℕ)
      → lookup j m.cb ≡ some h
      → lookup j (provide fl name spec m).1.cb ≡ some h
  unfolding provide register
  provide_keeps name spec m j h e = elim (Option-cases (lookup name m.cb)) [
    | inl n ↦ ground (arith, n, eq_iff name j, lookup-insert name j (length m.objects) m.cb)
    | inr (i, n) ↦ simp (n, provide) e
  ]

  provide_found :
      (name : String) (spec : BreakerSpec) (m : Manager)
      → lookup name (provide fl name spec m).1.cb ≡ some (provide fl name spec m).0
  unfolding provide register
  provide_found name spec m = elim (Option-cases (lookup name m.cb)) [
    | inl n ↦ ground (arith, n, eq_iff name name, lookup-insert name name (length m.objects) m.cb)
    | inr (i, n) ↦ simp (n, provide) refl
  ]

  pub provide_all_keeps :
      (specs : List (String × BreakerSpec)) (m : Manager) (j : String) (h : ℕ)
      → lookup j m.cb ≡ some h
      → lookup j (provide_all fl specs m).1.cb ≡ some h
  unfolding provide_all
  provide_all_keeps [] m j h e = e
  provide_all_keeps ((name, spec) ∷ specs) m j h e =
      provide_all_keeps specs (provide fl name spec m).1 j h (provide_keeps name spec m j h e)

  pub provide_all-Found :
      (specs : List (String × BreakerSpec)) (m : Manager)
      → Found (provide_all fl specs m).0 (provide_all fl specs m).1
  unfolding provide_all get_circuit_breaker
  provide_all-Found [] m = tt
  provide_all-Found ((name, spec) ∷ specs) m =
      let step = provide fl name spec m in
      (
        provide_all_keeps specs step.1 name step.0 (provide_found name spec m),
        provide_all-Found specs step.1,
      )

  pub keys-provide_all :
      (specs : List (String × BreakerSpec)) (m : Manager)
      → keys (provide_all fl specs m).0 ≡ keys specs
  unfolding provide_all keys
  keys-provide_all [] m = refl
  keys-provide_all ((name, spec) ∷ specs) m = cc (keys-provide_all specs (provide fl name spec m).1)

  -- With a manager of this package, whose maps agree: either some specification is not acceptable,
  -- then `ConfigureManager` gives an error and changes nothing at all; or every one is, then it
  -- gives a breaker for each name of the specifications, the one that the name now leads to, and
  -- every name that was registered still leads to its old breaker.
  pub configure_manager_lem :
      (z : BreakerConfig) (specs : List (String × BreakerSpec)) (m : Manager)
      → IsRegistry m
      → ((AllAcceptable specs m → ⊥)
          × ((e : ManagerError) × (configure_manager fl z true specs m ≡ (err e, m))))
        ⊎ (AllAcceptable specs m
            × ((out : List (String × ℕ)) × (m' : Manager) × (configure_manager fl z true specs m
                  ≡ (ok out, m'))
                × (keys out ≡ keys specs)
                × Found out m'
                × ((j : String) (h : ℕ)
                    → get_circuit_breaker j m ≡ some h
                    → get_circuit_breaker j m' ≡ some h)))
  unfolding configure_manager get_circuit_breaker
  configure_manager_lem z specs m r =
      let sound = check_specs_iff z specs m r in
      elim (Option-cases (check_specs z specs m)) [
        | inl e ↦ inr (
          sound.0 e,
          (
            (provide_all fl specs m).0,
            (provide_all fl specs m).1,
            simp (e, configure_manager) refl,
            keys-provide_all specs m,
            provide_all-Found specs m,
            λ j h q. provide_all_keeps specs m j h q,
          ),
        )
        | inr (x, e) ↦
            inl (λ h. absurd (ground (arith, sound.1 h)), (x, simp (e, configure_manager) refl))
      ]
