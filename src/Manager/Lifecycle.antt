-- ===== src/Manager/Lifecycle.antt =====
-- What the manager's calls return and change: creation, strict creation, removal and shutdown.
use Prim.Native.String.{String}
use circuit_breaker.Base.{
  ℕ, ◌≡◌, ◌≢◌, refl, true, false, none, some, List, [], ◌∷◌, ◌++◌, if◌then◌else◌, length, arith,
  Option-cases, inl, inr, ◌⊎◌, ◌↔◌, ◌∙◌, ap, Bool-cases, get_elem?,
}
use circuit_breaker.Base.Int.{eq_of_parts}
use circuit_breaker.Float.{Float}
use circuit_breaker.Dict.{lookup, lookup-insert_self, lookup-insert_ne}
use circuit_breaker.Circuit.{Circuit}
use circuit_breaker.Manager.{
  Manager, BreakerConfig, same_config, ok, err, divergent, register, make, get_or_create,
  get_or_create_strict, get_circuit_breaker,
}
use circuit_breaker.Manager.Registry.{IsRegistry}

pub get_elem?-append_at :
    (xs : List Circuit) (c : Circuit) → get_elem? (xs ++ c ∷ []) (length xs) ≡ some c
get_elem?-append_at [] c = refl
get_elem?-append_at (x ∷ xs) c = get_elem?-append_at xs c

pub same_config_iff : (a b : BreakerConfig) → (same_config a b ≡ true) ↔ (a ≡ b)
same_config_iff a b = (
  λ h.
      let e0 = eq_of_parts a.max_concurrent b.max_concurrent (ground arith) in
      let e1 = eq_of_parts a.max_requests b.max_requests (ground arith) in
      let e2 = eq_of_parts a.window_seconds b.window_seconds (ground arith) in
      let e3 = eq_of_parts a.max_retries b.max_retries (ground arith) in
      ground (arith, e0, e1, e2, e3),
  λ e. rw e (ground arith),
)

same_config-false : (a b : BreakerConfig) → a ≢ b → same_config a b ≡ false
same_config-false a b ne = elim (Bool-cases (same_config a b)) [
  | inl e ↦ absurd (ne ((same_config_iff a b).0 e))
  | inr e ↦ e
]

module _ {F : Type 0} (fl : Float F) where
  created :
      (name : String) (config : BreakerConfig) (m : Manager)
      → lookup name m.cb ≡ none
      → get_or_create fl name config m ≡ register name (make fl name config) config m
  unfolding get_or_create
  created name config m e = rw (e, get_or_create) refl

  existing :
      (name : String) (config : BreakerConfig) (m : Manager) (handle : ℕ)
      → lookup name m.cb ≡ some handle
      → get_or_create fl name config m ≡ (handle, m)
  unfolding get_or_create
  existing name config m handle e = rw (e, get_or_create) refl

  -- Creation returns what `GetCircuitBreaker` then finds under the name, and leaves the other names
  -- alone. A name that was taken keeps its object, whatever the parameters, and nothing changes; a
  -- new name gets a new object, made with the parameters. Every later creation under the name, with
  -- any parameters, returns the same object and changes nothing.
  pub get_or_create_lem :
      (name : String) (config : BreakerConfig) (m : Manager)
      → let (handle, m') = get_or_create fl name config m in
        (get_circuit_breaker name m' ≡ some handle)
        × ((j : String) → name ≢ j → get_circuit_breaker j m' ≡ get_circuit_breaker j m)
        × (get_circuit_breaker name m ≢ none → m' ≡ m)
        × (get_circuit_breaker name m ≡ none
            → (handle ≡ length m.objects)
              × (get_elem? m'.objects handle ≡ some (make fl name config))
              × (lookup name m'.cfg ≡ some config))
        × ((other : BreakerConfig) → get_or_create fl name other m' ≡ (handle, m'))
  unfolding get_circuit_breaker register
  get_or_create_lem name config m = elim (Option-cases (lookup name m.cb)) [
    | inl e ↦
        let l = lookup-insert_self name (length m.objects) m.cb in
        rw (created name config m e) (
          l,
          λ j ne. lookup-insert_ne name j (length m.objects) m.cb ne,
          λ h. absurd (h e),
          λ h. (
            refl,
            get_elem?-append_at m.objects (make fl name config),
            lookup-insert_self name config m.cfg,
          ),
          λ other.
              existing name other (register name (make fl name config) config m).1
                (length m.objects) l,
        )
    | inr (handle, e) ↦
        rw (existing name config m handle e)
          (e, λ j ne. refl, λ h. refl, λ h. absurd (cc), λ other. existing name other m handle e)
  ]

  strict_created :
      (zero_config : BreakerConfig) (name : String) (want : BreakerConfig) (m : Manager)
      → lookup name m.cb ≡ none
      → get_or_create_strict fl zero_config name want m
        ≡ (ok (length m.objects), (register name (make fl name want) want m).1)
  unfolding get_or_create_strict register
  strict_created z name want m e = rw (e, get_or_create_strict) refl

  strict_existing :
      (zero_config : BreakerConfig) (name : String) (want got : BreakerConfig) (m : Manager)
      (handle : ℕ)
      → lookup name m.cb ≡ some handle
      → lookup name m.cfg ≡ some got
      → get_or_create_strict fl zero_config name want m
        ≡ (if same_config got want then (ok handle, m) else (err (divergent name got want), m))
  unfolding get_or_create_strict
  strict_existing z name want got m handle e c = rw (e, c, get_or_create_strict) refl

  -- Strict creation refuses exactly a name that is registered with another configuration, and then
  -- changes nothing; otherwise it does what plain creation does.
  pub get_or_create_strict_lem :
      (zero_config : BreakerConfig) (name : String) (want : BreakerConfig) (m : Manager)
      → IsRegistry m
      → ((got : BreakerConfig)
          → lookup name m.cfg ≡ some got
          → got ≢ want
          → get_or_create_strict fl zero_config name want m ≡ (err (divergent name got want), m))
        × ((lookup name m.cfg ≡ none) ⊎ (lookup name m.cfg ≡ some want)
            → get_or_create_strict fl zero_config name want m
              ≡ (ok (get_or_create fl name want m).0, (get_or_create fl name want m).1))
  unfolding register
  get_or_create_strict_lem z name want m r = elim (Option-cases (lookup name m.cb)) [
    | inl e ↦ (
      λ got c ne. absurd (r.registered name (λ n. cc) e),
      λ h. rw (created name want m e) (strict_created z name want m e),
    )
    | inr (handle, e) ↦ (
      λ got c ne.
          strict_existing z name want got m handle e c
          ∙ ap (λ b. if b then (ok handle, m) else (err (divergent name got want), m))
              (same_config-false got want ne),
      λ h.
          let c : lookup name m.cfg ≡ some want = ground (arith, h, r.configured name (λ n. cc)) in
          rw (existing name want m handle e) (
            strict_existing z name want want m handle e c
            ∙ ap (λ b. if b then (ok handle, m) else (err (divergent name want want), m))
                ((same_config_iff want want).1 refl)),
    )
  ]
