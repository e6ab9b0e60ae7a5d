-- ===== src/Spec/Order.antt =====
-- `ConfigureManager` does not depend on the order in which Go visits the map of the specifications.
use Prim.Native.String.{String}
use text.Mathlib.Text.{◌==◌}
use text.Mathlib.TextEquality.{eq_iff}
use mathlib.Core.Path.{subst}
use circuit_breaker.Base.{
  ℕ, ◌≤◌, ◌<◌, ◌≡◌, refl, sym, ap, ◌∙◌, Bool, Option, none, some, Option-cases, Bool-cases, inl,
  inr, List, [], ◌∷◌, arith, map,
}
use circuit_breaker.Float.{Float}
use circuit_breaker.Dict.{lookup, keys, AreDistinct}
use circuit_breaker.Manager.{BreakerConfig, Manager}
use circuit_breaker.Spec.{BreakerSpec, spec_or, in_order, configure_manager, configure_map}
use circuit_breaker.Spec.Sorted.{count, IsAscending, IsSort, sort_same}

abbrev held : Option BreakerSpec → ℕ
held none = 0
held (some spec) = 1

count-keys :
    (name : String) (specs : List (String × BreakerSpec))
    → AreDistinct specs
    → count name (keys specs) ≡ held (lookup name specs)
unfolding keys lookup
count-keys name [] d = refl
count-keys name ((j, spec) ∷ specs) d =
    let ih = count-keys name specs d.1 in
    elim (Bool-cases (j == name)) [
      | inl e ↦
          let same : j ≡ name = ground (arith, eq_iff j name) in
          let free : held (lookup name specs) ≡ 0 =
            ap (λ x. held (lookup x specs)) (sym same) ∙ ap held d.0 in
          ground (arith, ih, free)
      | inr e ↦ ground (arith, ih)
    ]

module _ (given : String → BreakerSpec) where
  abbrev with_specs : List String → List (String × BreakerSpec)
  with_specs = map (λ name. (name, given name))

  keys-with_specs : (names : List String) → keys (with_specs names) ≡ names
  unfolding keys
  keys-with_specs [] = refl
  keys-with_specs (x ∷ names) = ap (λ l. x ∷ l) (keys-with_specs names)

  lookup-with_specs :
      (name : String) (names : List String)
      → (count name names ≡ 0 → lookup name (with_specs names) ≡ none)
        × (0 < count name names → lookup name (with_specs names) ≡ some (given name))
  unfolding lookup
  lookup-with_specs name [] = (λ e. refl, λ e. absurd (omega arith))
  lookup-with_specs name (x ∷ names) =
      let ih = lookup-with_specs name names in
      elim (Bool-cases (x == name)) [
        | inl e ↦
            let same : x ≡ name = ground (arith, eq_iff x name) in
            (λ z. absurd (ground arith), λ z. simp (e, lookup) (ap (λ y. some (given y)) same))
        | inr e ↦ (
          λ z. simp (e, lookup) (ih.0 (ground arith)),
          λ z. simp (e, lookup) (ih.1 (ground arith)),
        )
      ]

  with_specs-AreDistinct :
      (names : List String)
      → ((name : String) → count name names ≤ 1)
      → AreDistinct (with_specs names)
  with_specs-AreDistinct [] h = tt
  with_specs-AreDistinct (x ∷ names) h = (
    (lookup-with_specs x names).0 (ground (arith, h x, eq_iff x x)),
    with_specs-AreDistinct names (λ name. omega (arith, h name)),
  )

with_specs_cong :
    (given other : String → BreakerSpec)
    → ((name : String) → given name ≡ other name)
    → (names : List String) → with_specs given names ≡ with_specs other names
with_specs_cong given other e [] = refl
with_specs_cong given other e (x ∷ names) = cc (e x, with_specs_cong given other e names)

module _ {le : String → String → Bool} {sort : List String → List String} (sorts : IsSort le sort)
    (zero_spec : BreakerSpec) where
  count-sort :
      (name : String) (specs : List (String × BreakerSpec))
      → AreDistinct specs
      → count name (sort (keys specs)) ≡ held (lookup name specs)
  count-sort name specs d = sorts.same_names name (keys specs) ∙ count-keys name specs d

  in_order-AreDistinct :
      (specs : List (String × BreakerSpec))
      → AreDistinct specs
      → AreDistinct (in_order sort zero_spec specs)
  unfolding in_order
  in_order-AreDistinct specs d = with_specs-AreDistinct _ (sort (keys specs)) (λ name.
      elim (Option-cases (lookup name specs)) [
        | inl e ↦ omega (arith, count-sort name specs d, ap held e)
        | inr (spec, e) ↦ omega (arith, count-sort name specs d, ap held e)
      ])

  keys-in_order :
      (specs : List (String × BreakerSpec))
      → keys (in_order sort zero_spec specs) ≡ sort (keys specs)
  unfolding in_order
  keys-in_order specs = keys-with_specs _ (sort (keys specs))

  lookup-in_order :
      (name : String) (specs : List (String × BreakerSpec))
      → AreDistinct specs
      → lookup name (in_order sort zero_spec specs) ≡ lookup name specs
  unfolding in_order
  lookup-in_order name specs d =
      let at =
        lookup-with_specs (λ x. spec_or zero_spec (lookup x specs)) name (sort (keys specs)) in
      elim (Option-cases (lookup name specs)) [
        | inl e ↦ at.0 (omega (arith, count-sort name specs d, ap held e)) ∙ sym e
        | inr (spec, e) ↦
            at.1 (omega (arith, count-sort name specs d, ap held e))
            ∙ ap (λ x. some (spec_or zero_spec x)) e
            ∙ sym e
      ]

  in_order_same :
      (specs other : List (String × BreakerSpec))
      → AreDistinct specs
      → AreDistinct other
      → ((name : String) → lookup name specs ≡ lookup name other)
      → in_order sort zero_spec specs ≡ in_order sort zero_spec other
  unfolding in_order
  in_order_same specs other d d' e =
      let names : sort (keys specs) ≡ sort (keys other) =
        sort_same sorts (keys specs) (keys other)
          (λ name. count-keys name specs d ∙ ap held (e name) ∙ sym (count-keys name other d')) in
      let each =
        with_specs_cong (λ x. spec_or zero_spec (lookup x specs))
          (λ x. spec_or zero_spec (lookup x other)) (λ name. ap (spec_or zero_spec) (e name))
          (sort (keys specs)) in
      each ∙ ap (with_specs (λ x. spec_or zero_spec (lookup x other))) names

-- `ConfigureManager` does not depend on the order in which Go visits the map: two lists of entries
-- with distinct names that give the same specification under each name, as the visits of one map
-- do, lead to the same breakers, the same error and the same manager. What it works on is the map's
-- entries with their names in ascending order. That `sort` gives the same names in ascending order
-- is assumed of `sort.Strings`.
pub configure_map_any_order :
    {F : Type 0} (fl : Float F) {le : String → String → Bool} {sort : List String → List String}
    → IsSort le sort
    → (zero_spec : BreakerSpec) (z : BreakerConfig) (ours : Bool)
      (specs other : List (String × BreakerSpec)) (m : Manager)
    → AreDistinct specs
    → AreDistinct other
    → ((name : String) → lookup name specs ≡ lookup name other)
    → (configure_map fl sort zero_spec z ours specs m
        ≡ configure_map fl sort zero_spec z ours other m)
      × ((entries : List (String × BreakerSpec)) × (configure_map fl sort zero_spec z ours specs m
            ≡ configure_manager fl z ours entries m)
          × IsAscending le (keys entries)
          × AreDistinct entries
          × ((name : String) → lookup name entries ≡ lookup name specs))
unfolding configure_map
configure_map_any_order fl {le} {sort} sorts zero_spec z ours specs other m d d' e = (
  ap (λ l. configure_manager fl z ours l m) (in_order_same sorts zero_spec specs other d d' e),
  (
    in_order sort zero_spec specs,
    refl,
    subst (IsAscending le) (sym (keys-in_order sorts zero_spec specs))
        (sorts.ascending (keys specs)),
    in_order-AreDistinct sorts zero_spec specs d,
    λ name. lookup-in_order sorts zero_spec name specs d,
  ),
)
