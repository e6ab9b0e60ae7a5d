-- ===== src/Spec/Again.antt =====
-- A second call of `ConfigureManager` with the same specifications.
use Prim.Native.String.{String}
use text.Mathlib.TextEquality.{eq_iff}
use circuit_breaker.Base.{
  ℕ, ◌≡◌, ◌≢◌, inl, inr, refl, sym, ap, ◌∙◌, true, false, none, some, List, [], ◌∷◌, arith,
  Option-cases, length,
}
use circuit_breaker.Float.{Float}
use circuit_breaker.Dict.{lookup, keys, lookup-insert_self, lookup-insert_ne, AreDistinct}
use circuit_breaker.Manager.{BreakerConfig, Manager, Result, ok, register, get_circuit_breaker}
use circuit_breaker.Manager.Registry.{IsRegistry}
use circuit_breaker.Manager.Lifecycle.{same_config_iff}
use circuit_breaker.Spec.{
  BreakerSpec, is_half_set, check_spec, check_specs, provide, provide_all, configure_manager,
}
use circuit_breaker.Spec.Phases.{
  IsAcceptable, AllAcceptable, check_specs_iff, Found, provide_all-Found, keys-provide_all,
}

-- Every specification is the one that its name is registered with.
Settled : List (String × BreakerSpec) → Manager → Type 0
Settled [] m = Unit
Settled ((name, spec) ∷ specs) m =
    ((is_half_set spec.config ≡ false) × (lookup name m.cfg ≡ some spec.config)) × Settled specs m

check_specs-Settled :
    (z : BreakerConfig) (specs : List (String × BreakerSpec)) (m : Manager)
    → Settled specs m
    → check_specs z specs m ≡ none
unfolding Settled check_specs check_spec
check_specs-Settled z [] m s = refl
check_specs-Settled z ((name, spec) ∷ specs) m ((half, known), s) =
    let ih = check_specs-Settled z specs m s in
    let same = (same_config_iff spec.config spec.config).1 refl in
    elim (Option-cases (lookup name m.cb)) [
      | inl e ↦ simp (half, e, ih, check_specs, check_spec) refl
      | inr (h, e) ↦ simp (half, e, known, same, ih, check_specs, check_spec) refl
    ]

module _ {F : Type 0} (fl : Float F) where
  provide_all_again :
      (specs : List (String × BreakerSpec)) (out : List (String × ℕ)) (m : Manager)
      → keys out ≡ keys specs
      → Found out m
      → provide_all fl specs m ≡ (out, m)
  unfolding keys get_circuit_breaker provide_all provide
  provide_all_again [] [] m e f = refl
  provide_all_again [] (_ ∷ _) m e f = absurd (cc)
  provide_all_again (_ ∷ _) [] m e f = absurd (cc)
  provide_all_again ((name, spec) ∷ specs) ((j, h) ∷ out) m e (f, fs) =
      let same : name ≡ j = cc in
      let ih = provide_all_again specs out m (cc) fs in
      let known : lookup name m.cb ≡ some h = cc in
      simp (known, provide_all, provide, ih) (ap (λ k. ((k, h) ∷ out, m)) same)

  pub provide_keeps_cfg :
      (name : String) (spec : BreakerSpec) (m : Manager) (j : String)
      → name ≢ j
      → (lookup j (provide fl name spec m).1.cb ≡ lookup j m.cb)
        × (lookup j (provide fl name spec m).1.cfg ≡ lookup j m.cfg)
  unfolding provide register
  provide_keeps_cfg name spec m j ne = elim (Option-cases (lookup name m.cb)) [
    | inl n ↦
        simp (n, provide)
          (
            lookup-insert_ne name j (length m.objects) m.cb ne,
            lookup-insert_ne name j spec.config m.cfg ne,
          )
    | inr (i, n) ↦ simp (n, provide) (refl, refl)
  ]

  provide-configured :
      (name : String) (spec : BreakerSpec) (m : Manager)
      → IsAcceptable name spec m
      → lookup name (provide fl name spec m).1.cfg ≡ some spec.config
  unfolding provide register
  provide-configured name spec m (half, known) = elim (Option-cases (lookup name m.cb)) [
    | inl n ↦ simp (n, provide) (lookup-insert_self name spec.config m.cfg)
    | inr (i, n) ↦ elim known [ inl free ↦ absurd (cc) | inr e ↦ simp (n, provide) e ]
  ]

  -- The other names.
  AllAcceptable-provide :
      (name : String) (spec : BreakerSpec) (m : Manager) (specs : List (String × BreakerSpec))
      → lookup name specs ≡ none
      → AllAcceptable specs m
      → AllAcceptable specs (provide fl name spec m).1
  unfolding lookup
  AllAcceptable-provide name spec m [] free a = tt
  AllAcceptable-provide name spec m ((j, other) ∷ specs) free ((half, known), a) =
      let ne : name ≢ j = λ e. absurd (ground (arith, e, eq_iff j name)) in
      let kept = provide_keeps_cfg name spec m j ne in
      let rest : lookup name specs ≡ none = ground (arith, eq_iff j name) in
      (
        (half, elim known [ inl e ↦ inl (kept.0 ∙ e) | inr e ↦ inr (kept.1 ∙ e) ]),
        AllAcceptable-provide name spec m specs rest a,
      )

  provide_all_keeps_cfg :
      (specs : List (String × BreakerSpec)) (m : Manager) (j : String)
      → lookup j specs ≡ none
      → lookup j (provide_all fl specs m).1.cfg ≡ lookup j m.cfg
  unfolding provide_all lookup
  provide_all_keeps_cfg [] m j free = refl
  provide_all_keeps_cfg ((name, spec) ∷ specs) m j free =
      let ne : name ≢ j = λ e. absurd (ground (arith, e, eq_iff name j)) in
      let rest : lookup j specs ≡ none = ground (arith, eq_iff name j) in
      provide_all_keeps_cfg specs (provide fl name spec m).1 j rest
      ∙ (provide_keeps_cfg name spec m j ne).1

  provide_all-Settled :
      (specs : List (String × BreakerSpec)) (m : Manager)
      → AreDistinct specs
      → AllAcceptable specs m
      → Settled specs (provide_all fl specs m).1
  unfolding Settled provide_all
  provide_all-Settled [] m d a = tt
  provide_all-Settled ((name, spec) ∷ specs) m (free, d) (ok_one, a) =
      let m' = (provide fl name spec m).1 in
      (
        (
          ok_one.0,
          provide_all_keeps_cfg specs m' name free ∙ provide-configured name spec m ok_one,
        ),
        provide_all-Settled specs m' d (AllAcceptable-provide name spec m specs free a),
      )

  -- What the first call returns, and the second.
  again :
      (z : BreakerConfig) (specs : List (String × BreakerSpec)) (m : Manager)
      → IsRegistry m
      → AreDistinct specs
      → check_specs z specs m ≡ none
      → let (out, m') = provide_all fl specs m in
        (configure_manager fl z true specs m ≡ (ok out, m'))
        × (configure_manager fl z true specs m' ≡ (ok out, m'))
  unfolding configure_manager
  again z specs m r d good =
      let (out, m') = provide_all fl specs m in
      let settled = provide_all-Settled specs m d ((check_specs_iff z specs m r).0 good) in
      let found =
        provide_all_again specs out m' (keys-provide_all fl specs m)
          (provide_all-Found fl specs m) in
      (
        simp (good, configure_manager) refl,
        simp (check_specs-Settled z specs m' settled, found, configure_manager) refl,
      )

  refused_ne_ok :
      (z : BreakerConfig) (specs : List (String × BreakerSpec)) (m m' : Manager)
      (out : List (String × ℕ))
      → configure_manager fl z true specs m ≡ (ok out, m')
      → check_specs z specs m ≡ none
  unfolding configure_manager
  refused_ne_ok z specs m m' out e = elim (Option-cases (check_specs z specs m)) [
    | inl good ↦ good
    | inr (x, bad) ↦ absurd (ground (arith, e, bad))
  ]

  -- What was given out is what the second phase provides.
  pub configured-provide_all :
      (z : BreakerConfig) (specs : List (String × BreakerSpec)) (m m' : Manager)
      (out : List (String × ℕ))
      → configure_manager fl z true specs m ≡ (ok out, m')
      → ((provide_all fl specs m).0 ≡ out) × ((provide_all fl specs m).1 ≡ m')
  unfolding configure_manager
  configured-provide_all z specs m m' out e =
      let made = provide_all fl specs m in
      let first : configure_manager fl z true specs m ≡ (ok made.0, made.1) =
        simp (refused_ne_ok z specs m m' out e, configure_manager) refl in
      let same : Path (Result (List (String × ℕ)) × Manager) (ok made.0, made.1) (ok out, m') =
        sym first ∙ e in
      (cc, cc)

  -- Where `ConfigureManager` succeeds on a manager whose maps agree, with specifications of
  -- distinct names, a second call with the same specifications succeeds too, gives the same
  -- breakers and changes nothing.
  pub configure_manager_again :
      (z : BreakerConfig) (specs : List (String × BreakerSpec)) (m m' : Manager)
      (out : List (String × ℕ))
      → IsRegistry m
      → AreDistinct specs
      → configure_manager fl z true specs m ≡ (ok out, m')
      → configure_manager fl z true specs m' ≡ (ok out, m')
  configure_manager_again z specs m m' out r d e =
      let (first, second) = again z specs m r d (refused_ne_ok z specs m m' out e) in
      let (same_out, same_m) = configured-provide_all z specs m m' out e in cc
