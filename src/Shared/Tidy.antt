-- ===== src/Shared/Tidy.antt =====
-- The order in which a call of `Do` takes its slot, gives it back and reports.
use circuit_breaker.Base.{
  ℕ, ◌+◌, ◌-◌, ◌≤◌, ◌≡◌, ◌≢◌, refl, sym, ◌∙◌, none, some, List, [], ◌∷◌, ◌++◌, arith, inl, inr, ◌⊎◌,
}
use mathlib.Core.Path.{subst}
use mathlib.Core.List.{append-nil, append_assoc}
use circuit_breaker.Breaker.{Breaker, allow}
use circuit_breaker.Circuit.{Circuit}
use circuit_breaker.Request.{
  Action, asked, acquired, released, Request, Env, Run, Ending, returned, panicked, waiting,
  with_slot, with_breaker, tells, deferred, after, attempts_from, rounds, finish,
}
use circuit_breaker.Request.Tally.{tally, one_reported, one_acquired, one_released}
use circuit_breaker.Request.Layers.{
  deferred-ending, with_breaker_admitted, SlotRun, no_limit, held, gave_up, stuck,
  with_slot-SlotRun,
}
use circuit_breaker.Request.Guards.{told}
use circuit_breaker.Request.Outside.{attempts_from-outer}

-- The actions left to a call that holds `h` slots: it takes one only if it holds none, gives one back
-- only if it holds it, and reports with none.
abbrev pub Tidy : ℕ → List Action → Type 0
Tidy h [] = Unit
Tidy h (a ∷ acts) =
    (one_released a ≤ h)
    × (h + one_acquired a ≤ 1 + one_released a)
    × (one_reported a ≡ 0 ⊎ h ≡ 0)
    × Tidy (h + one_acquired a - one_released a) acts

-- Of actions that are about neither.
abbrev IsPlain : List Action → Type 0
IsPlain acts =
    (tally one_acquired acts ≡ 0) × (tally one_released acts ≡ 0) × (tally one_reported acts ≡ 0)

plain-Tidy : (h : ℕ) (xs ys : List Action) → h ≤ 1 → IsPlain xs → Tidy h ys → Tidy h (xs ++ ys)
plain-Tidy h [] ys le p t = t
plain-Tidy h (x ∷ xs) ys le p t =
    let a : one_acquired x ≡ 0 = omega (arith, p.0) in
    let r : one_released x ≡ 0 = omega (arith, p.1) in
    let n : one_reported x ≡ 0 = omega (arith, p.2) in
    let same : h ≡ h + one_acquired x - one_released x = omega (arith, a, r) in
    (
      omega (arith, r),
      omega (arith, a, r, le),
      inl n,
      subst (λ k. Tidy k (xs ++ ys)) same
          (plain-Tidy h xs ys le (omega (arith, p.0), omega (arith, p.1), omega (arith, p.2)) t),
    )

-- A run that keeps to this, and leaves no slot behind if it comes back.
record Closes (r : Run) : Type 0 where
  keeps : Tidy 0 r.trace
  returns : r.ending ≢ waiting → (ys : List Action) → Tidy 0 ys → Tidy 0 (r.trace ++ ys)

plain-Closes : (r : Run) → IsPlain r.trace → Closes r
plain-Closes r p = record {
  keeps = subst (Tidy 0) (append-nil r.trace) (plain-Tidy 0 r.trace [] (omega arith) p tt);
  returns = λ _ ys t. plain-Tidy 0 r.trace ys (omega arith) p t;
}

-- The loop between taking the slot and giving it back.
back-Tidy :
    (acts ys : List Action)
    → IsPlain acts
    → Tidy 0 ys
    → Tidy 0 ((acquired ∷ acts ++ released ∷ []) ++ ys)
back-Tidy acts ys p t = (
  omega arith,
  omega arith,
  inl refl,
  subst (Tidy 1) (sym (append_assoc acts (released ∷ []) ys))
      (plain-Tidy 1 acts (released ∷ ys) (omega arith) p (omega arith, omega arith, inl refl, t)),
)

ended : (e : Ending) → (e ≡ waiting) ⊎ (e ≢ waiting)
ended waiting = inl refl
ended panicked = inr (λ x. absurd (cc))
ended (returned resp x) = inr (λ y. absurd (cc))

abbrev slot_held : Run → Run
slot_held r = deferred (λ _. released ∷ []) (after (acquired ∷ []) r)

held-Closes : (r : Run) → IsPlain r.trace → Closes (slot_held r)
held-Closes r p = elim (ended r.ending) [
  | inl e ↦ record {
    keeps = rw (e) (
      omega arith,
      omega arith,
      inl refl,
      subst (Tidy 1) (append-nil r.trace) (plain-Tidy 1 r.trace [] (omega arith) p tt),
    );
    returns = λ n. absurd (n (deferred-ending (λ _. released ∷ []) (after (acquired ∷ []) r) ∙ e));
  }
  | inr n ↦
      let q = told (λ _. released ∷ []) (after (acquired ∷ []) r) r.ending refl n in
      record {
        keeps =
            subst (Tidy 0) (append-nil (acquired ∷ r.trace ++ released ∷ []) ∙ sym q)
              (back-Tidy r.trace [] p tt);
        returns = λ _ ys t. subst (λ l. Tidy 0 (l ++ ys)) (sym q) (back-Tidy r.trace ys p t);
      }
]

module _ (cb : Circuit) (req : Request) (env : Env) where
  slot-Closes : {r : Run} → SlotRun cb req env r → Closes r
  slot-Closes (no_limit e) = plain-Closes _ loop-IsPlain
    where
      loop-IsPlain : IsPlain (attempts_from cb req env (rounds cb.max_retries) 0 none).trace
      loop-IsPlain = (
        attempts_from-outer 1 0 0 0 0 cb req env (rounds cb.max_retries) 0 none,
        attempts_from-outer 0 1 0 0 0 cb req env (rounds cb.max_retries) 0 none,
        attempts_from-outer 0 0 1 0 0 cb req env (rounds cb.max_retries) 0 none,
      )
  slot-Closes (held e) = held-Closes (attempts_from cb req env (rounds cb.max_retries) 0 none) (
    attempts_from-outer 1 0 0 0 0 cb req env (rounds cb.max_retries) 0 none,
    attempts_from-outer 0 1 0 0 0 cb req env (rounds cb.max_retries) 0 none,
    attempts_from-outer 0 0 1 0 0 cb req env (rounds cb.max_retries) 0 none,
  )
  slot-Closes (gave_up x) = plain-Closes (finish (returned none (some x)) none) (refl, refl, refl)
  slot-Closes (stuck e f) = plain-Closes (finish waiting none) (refl, refl, refl)

  pub begun-Tidy : cb.state ≡ none → Tidy 0 (with_breaker cb req env).trace
  unfolding with_breaker
  begun-Tidy e = simp (e, with_breaker) ((slot-Closes (with_slot-SlotRun cb req env)).keeps)

  pub entered-Tidy :
      (b : Breaker) (left : List Action)
      → cb.state ≡ some b
      → (allow env.asked_at b).0.error ≡ none
      → (with_breaker cb req env).trace ≡ asked env.asked_at ∷ left
      → Tidy 0 left
  entered-Tidy b left e a t =
      let r = with_slot cb req env in
      let v = slot-Closes (with_slot-SlotRun cb req env) in
      let run = with_breaker_admitted cb req env b e a in
      let same : (deferred (tells cb req env b) r).trace ≡ left = cc in
      subst (Tidy 0) same (elim (ended r.ending) [
        | inl n ↦ rw (n) v.keeps
        | inr n ↦
            subst (Tidy 0) (sym (told (tells cb req env b) r r.ending refl n))
              (v.returns n _ (omega arith, omega arith, inr refl, tt))
      ])
