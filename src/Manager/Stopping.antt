-- ===== src/Manager/Stopping.antt =====
-- Stopping one object, and each object of some names.
use Prim.Native.String.{String}
use text.Mathlib.Text.{◌==◌}
use circuit_breaker.Base.{
  ℕ, zero, suc, ◌<◌, ◌≡◌, ◌≢◌, refl, none, some, List, [], ◌∷◌, length, arith, Option-cases, inl,
  inr, Bool-cases, ◌∙◌, sym, ap, get_elem?, set, get_elem?-set_self, get_elem?-set_ne, set_comm,
  ℕ_discrete, true, false, ◌⊎◌,
}
use mathlib.Core.Path.{subst}
use mathlib.Core.List.{Permᴰ}
use circuit_breaker.Dict.{lookup}
use circuit_breaker.Circuit.{Circuit, stop}
use circuit_breaker.Manager.{stop_object, stop_each}

-- `Stop` twice is `Stop` once.
pub stop_idem : (c : Circuit) → stop (stop c) ≡ stop c
unfolding stop
stop_idem c = ground arith

-- There is no stop channel, or it is closed and the refill goroutine has ended.
abbrev pub IsStopped : Circuit → Type 0
IsStopped c = (c.token_stop ≡ none) ⊎ ((c.token_stop ≡ some true) × (c.refilling ≡ false))

pub stop-IsStopped : (c : Circuit) → IsStopped (stop c)
unfolding stop
stop-IsStopped c = elim (Option-cases c.token_stop) [
  | inl e ↦ simp (e, stop) (inl refl)
  | inr (b, e) ↦ simp (e, stop) (inr (refl, refl))
]

stop_absent : (c : Circuit) → c.token_stop ≡ none → stop c ≡ c
unfolding stop
stop_absent c e = simp (e, stop) refl

-- `Stop` changes nothing else.
pub stop_frame :
    (c : Circuit)
    → stop c ≡ record c { token_stop = (stop c).token_stop; refilling = (stop c).refilling }
unfolding stop
stop_frame c = elim (Option-cases c.token_stop) [
  | inl e ↦
      let same = stop_absent c e in
      same
      ∙ ap (λ (d : Circuit). record c { token_stop = d.token_stop; refilling = d.refilling })
          (sym same)
  | inr (b, e) ↦ rw (e, stop) refl
]

get_lt : (os : List Circuit) (h : ℕ) (c : Circuit) → get_elem? os h ≡ some c → h < length os
get_lt [] h c e = cc
get_lt (o ∷ os) zero c e = omega arith
get_lt (o ∷ os) (suc h) c e = omega (arith, get_lt os h c e)

set_same : (os : List Circuit) (h : ℕ) (c : Circuit) → get_elem? os h ≡ some c → set os h c ≡ os
set_same [] h c e = refl
set_same (o ∷ os) zero c e = ground arith
set_same (o ∷ os) (suc h) c e = ground (arith, set_same os h c e)

pub stop_object_self :
    (h : ℕ) (os : List Circuit) (c : Circuit)
    → get_elem? os h ≡ some c
    → get_elem? (stop_object h os) h ≡ some (stop c)
unfolding stop_object
stop_object_self h os c e = rw (e, stop_object) (get_elem?-set_self os h (stop c) (get_lt os h c e))

pub stop_object_ne :
    (h j : ℕ) (os : List Circuit) → h ≢ j → get_elem? (stop_object h os) j ≡ get_elem? os j
unfolding stop_object
stop_object_ne h j os ne = elim (Option-cases (get_elem? os h)) [
  | inl e ↦ rw (e, stop_object) refl
  | inr (c, e) ↦ rw (e, stop_object) (get_elem?-set_ne os (stop c) ne)
]

-- The object is stopped, and stopping it again changes nothing.
abbrev pub IsStoppedAt : ℕ → List Circuit → Type 0
IsStoppedAt h os = (c : Circuit) → get_elem? os h ≡ some c → IsStopped c × (stop c ≡ c)

pub stop_object-IsStoppedAt : (h : ℕ) (os : List Circuit) → IsStoppedAt h (stop_object h os)
stop_object-IsStoppedAt h os c e = elim (Option-cases (get_elem? os h)) [
  | inl n ↦ absurd (unfold stop_object in cc (rw (n, stop_object) at e))
  | inr (c', e') ↦
      let same : stop c' ≡ c = ground (arith, stop_object_self h os c' e') in
      rw (← same) (stop-IsStopped c', stop_idem c')
]

stop_object_keeps :
    (h j : ℕ) (os : List Circuit) → IsStoppedAt j os → IsStoppedAt j (stop_object h os)
stop_object_keeps h j os s = elim (ℕ_discrete h j) [
  | yes e ↦ subst (λ i. IsStoppedAt i (stop_object h os)) e (stop_object-IsStoppedAt h os)
  | no ne ↦ λ c q. s c (sym (stop_object_ne h j os ne) ∙ q)
]

stop_each_keeps :
    (cbs : List (String × ℕ)) (j : ℕ) (os : List Circuit)
    → IsStoppedAt j os
    → IsStoppedAt j (stop_each cbs os)
unfolding stop_each
stop_each_keeps [] j os s = s
stop_each_keeps ((name, h) ∷ cbs) j os s =
    stop_each_keeps cbs j (stop_object h os) (stop_object_keeps h j os s)

stop_object_noop : (h : ℕ) (os : List Circuit) → IsStoppedAt h os → stop_object h os ≡ os
unfolding stop_object
stop_object_noop h os s = elim (Option-cases (get_elem? os h)) [
  | inl e ↦ rw (e, stop_object) refl
  | inr (c, e) ↦ rw (e, stop_object, (s c e).1) (set_same os h c e)
]

-- Every object that a name leads to is stopped.
pub stop_each_stops :
    (cbs : List (String × ℕ)) (os : List Circuit) (name : String) (h : ℕ)
    → lookup name cbs ≡ some h
    → IsStoppedAt h (stop_each cbs os)
unfolding stop_each lookup
stop_each_stops [] os name h e = λ c q. absurd (cc)
stop_each_stops ((n, g) ∷ cbs) os name h e = elim (Bool-cases (n == name)) [
  | inl same ↦
      let i : g ≡ h = ground arith in
      subst (λ k. IsStoppedAt k (stop_each cbs (stop_object g os))) i
        (stop_each_keeps cbs g (stop_object g os) (stop_object-IsStoppedAt g os))
  | inr other ↦ stop_each_stops cbs (stop_object g os) name h (ground arith)
]

pub AllStopped : List (String × ℕ) → List Circuit → Type 0
AllStopped [] os = Unit
AllStopped ((n, g) ∷ cbs) os = IsStoppedAt g os × AllStopped cbs os

AllStopped-keeps :
    (cbs all : List (String × ℕ)) (os : List Circuit)
    → AllStopped cbs os
    → AllStopped cbs (stop_each all os)
unfolding AllStopped
AllStopped-keeps [] all os s = tt
AllStopped-keeps ((n, g) ∷ cbs) all os s =
    (stop_each_keeps all g os s.0, AllStopped-keeps cbs all os s.1)

pub stop_each-AllStopped :
    (cbs : List (String × ℕ)) (os : List Circuit) → AllStopped cbs (stop_each cbs os)
unfolding AllStopped stop_each
stop_each-AllStopped [] os = tt
stop_each-AllStopped ((n, g) ∷ cbs) os = (
  stop_each_keeps cbs g (stop_object g os) (stop_object-IsStoppedAt g os),
  stop_each-AllStopped cbs (stop_object g os),
)

pub stop_each_noop :
    (cbs : List (String × ℕ)) (os : List Circuit) → AllStopped cbs os → stop_each cbs os ≡ os
unfolding AllStopped stop_each
stop_each_noop [] os s = refl
stop_each_noop ((n, g) ∷ cbs) os s = rw (stop_object_noop g os s.0) (stop_each_noop cbs os s.1)

stop_object_at :
    (h : ℕ) (os : List Circuit) (c : Circuit)
    → get_elem? os h ≡ some c
    → stop_object h os ≡ set os h (stop c)
unfolding stop_object
stop_object_at h os c e = rw (e, stop_object) refl

stop_object_out : (h : ℕ) (os : List Circuit) → get_elem? os h ≡ none → stop_object h os ≡ os
unfolding stop_object
stop_object_out h os e = rw (e, stop_object) refl

-- Two stops come in either order.
stop_object_comm :
    (g h : ℕ) (os : List Circuit)
    → stop_object h (stop_object g os) ≡ stop_object g (stop_object h os)
stop_object_comm g h os = elim (ℕ_discrete g h) [
  | yes same ↦ rw (same) refl
  | no ne ↦
      let ne' : h ≢ g = λ e. ne (sym e) in
      let far = stop_object_ne g h os ne in
      let near = stop_object_ne h g os ne' in
      elim (Option-cases (get_elem? os g)) [
        | inl n ↦
            stop_object_at_none g h os n ∙ sym (stop_object_out g (stop_object h os) (near ∙ n))
        | inr (c, e) ↦ elim (Option-cases (get_elem? os h)) [
          | inl n ↦
              stop_object_out h (stop_object g os) (far ∙ n) ∙ sym (stop_object_at_none h g os n)
          | inr (d, f) ↦
              stop_object_at h (stop_object g os) d (far ∙ f)
              ∙ ap (λ l. set l h (stop d)) (stop_object_at g os c e)
              ∙ set_comm os g h (stop c) (stop d) ne
              ∙ sym (ap (λ l. set l g (stop c)) (stop_object_at h os d f))
              ∙ sym (stop_object_at g (stop_object h os) c (near ∙ e))
        ]
      ]
]
  where
    stop_object_at_none :
        (g h : ℕ) (os : List Circuit)
        → get_elem? os g ≡ none
        → stop_object h (stop_object g os) ≡ stop_object h os
    stop_object_at_none g h os n = ap (stop_object h) (stop_object_out g os n)

-- The order in which the objects are stopped does not matter.
pub stop_each_any_order :
    {cbs visited : List (String × ℕ)}
    → Permᴰ cbs visited
    → (os : List Circuit) → stop_each cbs os ≡ stop_each visited os
unfolding stop_each
stop_each_any_order Permᴰ.nil os = refl
stop_each_any_order (Permᴰ.cons {a = (n, g)} {b = (n', g')} {l₂} e p) os =
    let same : g ≡ g' = ap (λ x. x.1) e in
    stop_each_any_order p (stop_object g os) ∙ ap (λ k. stop_each l₂ (stop_object k os)) same
stop_each_any_order (Permᴰ.swap {a = (n, g)} {b = (j, h)} {a' = (j', h')} {b' = (n', g')} {l} e f)
      os =
    let same : g ≡ g' = ap (λ x. x.1) e in
    let same' : h ≡ h' = ap (λ x. x.1) f in
    ap (stop_each l) (stop_object_comm g h os)
    ∙ ap (λ k. stop_each l (stop_object g (stop_object k os))) same'
    ∙ ap (λ k. stop_each l (stop_object k (stop_object h' os))) same
stop_each_any_order (Permᴰ.trans p q) os = stop_each_any_order p os ∙ stop_each_any_order q os
