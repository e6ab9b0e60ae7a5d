-- ===== src/Spec/Limits.antt =====
-- The breakers that `ConfigureManager` makes, and their calls.
use Prim.Native.String.{String}
use text.Mathlib.Text.{◌==◌}
use text.Mathlib.TextEquality.{eq_iff}
use mathlib.Core.Path.{subst}
use circuit_breaker.Base.{
  ℕ, zero, suc, ◌*◌, ◌^◌, ◌<◌, ◌≡◌, ◌≢◌, sym, ap, ◌∙◌, true, none, some, Option-cases, Bool-cases,
  inl, inr, List, [], ◌∷◌, ◌++◌, All, arith, length, get_elem?,
}
use circuit_breaker.Base.Int.{ℤ, pos}
use circuit_breaker.Float.{Float}
use circuit_breaker.Dict.{lookup, lookup-insert_self}
use circuit_breaker.Circuit.{Circuit}
use circuit_breaker.Options.{new_circuit_breaker_with_options}
use circuit_breaker.Manager.{BreakerConfig, Manager, ok, register, get_circuit_breaker}
use circuit_breaker.Manager.Lifecycle.{get_elem?-append_at}
use circuit_breaker.Spec.{BreakerSpec, provide, provide_all, configure_manager}
use circuit_breaker.Spec.Phases.{provide_all_keeps}
use circuit_breaker.Spec.Again.{provide_keeps_cfg, configured-provide_all}
use circuit_breaker.Shared.Limits.{
  IsOption, burst_asked, KeepsLimits, allowance, new_circuit_breaker_with_options-limits,
}

get_elem?-append :
    (xs ys : List Circuit) (i : ℕ) (c : Circuit)
    → get_elem? xs i ≡ some c
    → get_elem? (xs ++ ys) i ≡ some c
get_elem?-append [] ys i c e = absurd (cc)
get_elem?-append (x ∷ xs) ys zero c e = e
get_elem?-append (x ∷ xs) ys (suc i) c e = get_elem?-append xs ys i c e

module _ {F : Type 0} (fl : Float F) where
  abbrev made : String → BreakerSpec → Circuit
  made name spec =
      let c = spec.config in
      new_circuit_breaker_with_options fl name c.max_concurrent c.max_requests c.window_seconds
        c.max_retries spec.options

  provide_keeps_object :
      (name : String) (spec : BreakerSpec) (m : Manager) (h : ℕ) (c : Circuit)
      → get_elem? m.objects h ≡ some c
      → get_elem? (provide fl name spec m).1.objects h ≡ some c
  unfolding provide register
  provide_keeps_object name spec m h c e = elim (Option-cases (lookup name m.cb)) [
    | inl n ↦ simp (n, provide) (get_elem?-append m.objects (made name spec ∷ []) h c e)
    | inr (g, n) ↦ simp (n, provide) e
  ]

  provide_all_keeps_object :
      (specs : List (String × BreakerSpec)) (m : Manager) (h : ℕ) (c : Circuit)
      → get_elem? m.objects h ≡ some c
      → get_elem? (provide_all fl specs m).1.objects h ≡ some c
  unfolding provide_all
  provide_all_keeps_object [] m h c e = e
  provide_all_keeps_object ((name, spec) ∷ specs) m h c e =
      provide_all_keeps_object specs (provide fl name spec m).1 h c
        (provide_keeps_object name spec m h c e)

  -- A new name gets a new object.
  provide-made :
      (name : String) (spec : BreakerSpec) (m : Manager)
      → lookup name m.cb ≡ none
      → (lookup name (provide fl name spec m).1.cb ≡ some (length m.objects))
        × (get_elem? (provide fl name spec m).1.objects (length m.objects) ≡ some (made name spec))
  unfolding provide register
  provide-made name spec m n =
      simp (n, provide)
        (
          lookup-insert_self name (length m.objects) m.cb,
          get_elem?-append_at m.objects (made name spec),
        )

  provide_all-made :
      (specs : List (String × BreakerSpec)) (m : Manager) (name : String) (spec : BreakerSpec)
      → lookup name specs ≡ some spec
      → lookup name m.cb ≡ none
      → (h : ℕ) × (lookup name (provide_all fl specs m).1.cb ≡ some h)
        × (get_elem? (provide_all fl specs m).1.objects h ≡ some (made name spec))
  unfolding provide_all lookup
  provide_all-made [] m name spec e n = absurd (cc)
  provide_all-made ((j, other) ∷ specs) m name spec e n = elim (Bool-cases (j == name)) [
    | inl q ↦
        let same : j ≡ name = ground (arith, eq_iff j name) in
        let same_spec : other ≡ spec = ground (arith, e) in
        let (listed, at) = provide-made j other m (ap (λ x. lookup x m.cb) same ∙ n) in
        let m' = (provide fl j other m).1 in
        let last = length m.objects in
        let same_made : made j other ≡ made name spec = cc in
        (
          last,
          subst (λ x. lookup x (provide_all fl specs m').1.cb ≡ some last) same
              (provide_all_keeps fl specs m' j last listed),
          provide_all_keeps_object specs m' last (made j other) at ∙ ap some same_made,
        )
    | inr q ↦
        let ne : j ≢ name = λ x. absurd (ground (arith, x, eq_iff j name)) in
        provide_all-made specs (provide fl j other m).1 name spec (ground (arith, e, q))
          ((provide_keeps_cfg fl j other m name ne).0 ∙ n)
  ]

  -- Take a call of `ConfigureManager` that succeeds, and a name of its specifications that was not
  -- registered before. If its specification asks for at least one slot, one request and one second,
  -- in a window that fits an int64 of nanoseconds, and has options of the package only, then the
  -- manager has a breaker under the name of which this holds: however the actions of its calls, its
  -- ticks and `Stop` interleave, at most `MaxConcurrent` calls hold a slot at once, and the
  -- requests sent are at most the burst of the options, or `MaxRequests` without one, more than the
  -- tokens that the ticks offered.
  pub configure_manager-KeepsLimits :
      (z : BreakerConfig) (specs : List (String × BreakerSpec)) (m m' : Manager)
      (out : List (String × ℕ))
      → configure_manager fl z true specs m ≡ (ok out, m')
      → (name : String) (spec : BreakerSpec) → lookup name specs ≡ some spec
      → get_circuit_breaker name m ≡ none
      → (chosen : All IsOption spec.options) → (seats requests seconds : ℕ) (retries : ℤ)
      → spec.config ≡ record {
        max_concurrent = pos seats;
        max_requests = pos requests;
        window_seconds = pos seconds;
        max_retries = retries;
      }
      → 0 < seats
      → 0 < requests
      → 0 < seconds
      → seconds * 1_000_000_000 < 2 ^ 63
      → (h : ℕ) × (cb : Circuit) × (get_circuit_breaker name m' ≡ some h)
        × (get_elem? m'.objects h ≡ some cb)
        × KeepsLimits seats (allowance requests (burst_asked spec.options chosen (pos 0))) cb
  unfolding get_circuit_breaker
  configure_manager-KeepsLimits z specs m m' out e name spec has new opts seats requests seconds
        retries asked ps pr pw fits =
      let same_m = (configured-provide_all fl z specs m m' out e).1 in
      let (h, listed, at) = provide_all-made specs m name spec has new in
      let cb =
        new_circuit_breaker_with_options fl name (pos seats) (pos requests) (pos seconds) retries
          spec.options in
      let same_cb : made name spec ≡ cb = cc in
      (
        h,
        cb,
        ap (λ (x : Manager). lookup name x.cb) (sym same_m) ∙ listed,
        ap (λ (x : Manager). get_elem? x.objects h) (sym same_m) ∙ at ∙ ap some same_cb,
        new_circuit_breaker_with_options-limits fl name seats requests seconds retries spec.options
            opts ps pr pw fits,
      )
