-- ===== src/Breaker/Concurrent.antt =====
-- Many goroutines over one machine: calls are admitted and finish in any order, at any clock values.
-- Each method runs under the mutex, so an interleaving is a sequence of whole calls of them.
use circuit_breaker.Base.{
  Without, this, later, ℕ, suc, ◌+◌, ◌^◌, ◌≤◌, ◌<◌, ◌≡◌, refl, List, [], ◌∷◌, Bool, ◌&&◌, none,
  arith, ◌==◌, if◌then◌else◌,
}
use circuit_breaker.Base.Int.{ℤ, pos, ◌+ℤ◌, ◌-ℤ◌, ◌≤ℤ◌, ◌<ℤ◌}
use circuit_breaker.Breaker.{
  state_closed, state_half_open, Outcome, Breaker, Admission, new_breaker_state, allow, report,
}

-- A call on its way: what `allow` gave it. `one_of g` is 1 for a probe of generation `g`.
abbrev pub one_of : ℕ → Admission → ℕ
one_of g a = if a.probe && (a.gen == g) then 1 else 0

abbrev pub probes_of : ℕ → List Admission → ℕ
probes_of g [] = 0
probes_of g (a ∷ as') = one_of g a + probes_of g as'

pub record System : Type 0 where
  pub machine : Breaker
  pub running : List Admission

-- `admit` and `refuse` are a call of `allow`; `finish` is the deferred `report` of an admitted call.
pub data Step (s : System) : System → Type 0 where
  admit :
      (now : ℤ)
      → (allow now s.machine).0.error ≡ none
      → Step s (record {
        machine = (allow now s.machine).1;
        running = (allow now s.machine).0 ∷ s.running;
      })
  refuse :
      (now : ℤ)
      → ((allow now s.machine).0.error ≡ none → ⊥)
      → Step s (record s { machine = (allow now s.machine).1 })
  finish :
      (now : ℤ) (o : Outcome) {a : Admission} {rest : List Admission}
      → Without a s.running rest
      → Step s (record { machine = report a.probe a.gen now o s.machine; running = rest })

-- States after `n` steps.
pub data Reach (s : System) : ℕ → System → Type 0 where
  here : Reach s 0 s
  next : {n : ℕ} {t u : System} → Reach s n t → Step t u → Reach s (suc n) u

-- No call on its way carries a generation above `g`.
abbrev NoneAbove : ℕ → List Admission → Type 0
NoneAbove g [] = Unit
NoneAbove g (a ∷ as') = (a.gen ≤ g) × NoneAbove g as'

pub record Inv (n : ℕ) (s : System) : Type 0 where
  pub limit : pos 1 ≤ℤ s.machine.threshold
  pub room : pos 1 ≤ℤ s.machine.max_probes
  pub old : NoneAbove s.machine.gen s.running
  pub young : s.machine.gen ≤ n
  pub exact :
      s.machine.cur ≡ state_half_open → s.machine.probes ≡ pos (probes_of s.machine.gen s.running)
  pub bounded : s.machine.cur ≡ state_half_open → s.machine.probes ≤ℤ s.machine.max_probes
  pub counting :
      s.machine.cur ≡ state_closed
      → (pos 0 ≤ℤ s.machine.consec_fails) × (s.machine.consec_fails <ℤ s.machine.threshold)

probes_of_above : (g h : ℕ) (as' : List Admission) → NoneAbove g as' → g < h → probes_of h as' ≡ 0
probes_of_above g h [] na lt = refl
probes_of_above g h (a ∷ as') na lt = ground (arith, probes_of_above g h as' na.1 lt)

NoneAbove-mono : (g h : ℕ) (as' : List Admission) → NoneAbove g as' → g ≤ h → NoneAbove h as'
NoneAbove-mono g h [] na le = tt
NoneAbove-mono g h (a ∷ as') na le = (omega arith, NoneAbove-mono g h as' na.1 le)

Without-probes_of :
    {a : Admission} {xs ys : List Admission} (g : ℕ)
    → Without a xs ys
    → probes_of g xs ≡ one_of g a + probes_of g ys
Without-probes_of g this = refl
Without-probes_of g (later w) = omega (arith, Without-probes_of g w)

Without-NoneAbove :
    {a : Admission} {xs ys : List Admission} (g : ℕ)
    → Without a xs ys
    → NoneAbove g xs
    → NoneAbove g ys
Without-NoneAbove g this na = na.1
Without-NoneAbove g (later w) na = (na.0, Without-NoneAbove g w na.1)

module _ {n : ℕ} (small : suc n < 2 ^ 64) (b : Breaker) (calls : List Admission) where
  abbrev now_running : System
  now_running = record { machine = b; running = calls }

  admit-Inv :
      (now : ℤ)
      → Inv n now_running
      → (allow now b).0.error ≡ none
      → Inv (suc n) (record { machine = (allow now b).1; running = (allow now b).0 ∷ calls })
  unfolding allow ◌+ℤ◌
  admit-Inv now v h = ground (
    arith,
    probes_of_above b.gen (b.gen + 1) calls v.old,
    NoneAbove-mono b.gen (b.gen + 1) calls v.old,
  )

  refuse-Inv :
      (now : ℤ)
      → Inv n now_running
      → ((allow now b).0.error ≡ none → ⊥)
      → Inv (suc n) (record { machine = (allow now b).1; running = calls })
  unfolding allow
  refuse-Inv now v h = ground arith

  finish-Inv :
      (now : ℤ) (o : Outcome) (a : Admission) (rest : List Admission)
      → Without a calls rest
      → Inv n now_running
      → Inv (suc n) (record { machine = report a.probe a.gen now o b; running = rest })
  unfolding report ◌+ℤ◌ ◌-ℤ◌
  finish-Inv now o a rest w v =
      ground (arith, Without-probes_of b.gen w, Without-NoneAbove b.gen w v.old)

Step-Inv : {n : ℕ} {s t : System} → suc n < 2 ^ 64 → Step s t → Inv n s → Inv (suc n) t
Step-Inv {s} small (admit now h) v = admit-Inv small s.machine s.running now v h
Step-Inv {s} small (refuse now h) v = refuse-Inv small s.machine s.running now v h
Step-Inv {s} small (finish now o {a} {rest} w) v =
    finish-Inv small s.machine s.running now o a rest w v

abbrev pub start : ℤ → ℤ → ℤ → ℤ → System
start zero_time threshold open_for max_probes = record {
  machine = new_breaker_state zero_time threshold open_for max_probes;
  running = [];
}

start-Inv : (z threshold open_for max_probes : ℤ) → Inv 0 (start z threshold open_for max_probes)
unfolding new_breaker_state
start-Inv z t o m = ground arith

Reach-Inv :
    (z threshold open_for max_probes : ℤ) {n : ℕ} {s : System}
    → n < 2 ^ 64
    → Reach (start z threshold open_for max_probes) n s
    → Inv n s
Reach-Inv z t o m small here = start-Inv z t o m
Reach-Inv z t o m small (next r st) = Step-Inv small st (Reach-Inv z t o m (omega arith) r)

-- No operation changes the parameters.
record SameParameters (b b' : Breaker) : Type 0 where
  same_threshold : b'.threshold ≡ b.threshold
  same_wait : b'.open_for ≡ b.open_for
  same_probes : b'.max_probes ≡ b.max_probes

allow-SameParameters : (now : ℤ) (b : Breaker) → SameParameters b (allow now b).1
unfolding allow
allow-SameParameters now b = ground arith

report-SameParameters :
    (probe : Bool) (gen : ℕ) (now : ℤ) (o : Outcome) (b : Breaker)
    → SameParameters b (report probe gen now o b)
unfolding report
report-SameParameters probe gen now o b = ground arith

Step-SameParameters : {s t : System} → Step s t → SameParameters s.machine t.machine
Step-SameParameters {s} (admit now h) = allow-SameParameters now s.machine
Step-SameParameters {s} (refuse now h) = allow-SameParameters now s.machine
Step-SameParameters {s} (finish now o {a} w) = report-SameParameters a.probe a.gen now o s.machine

Reach-SameParameters :
    {s : System} {n : ℕ} {t : System} → Reach s n t → SameParameters s.machine t.machine
Reach-SameParameters here = record { same_threshold = refl; same_wait = refl; same_probes = refl }
Reach-SameParameters (next r st) = ground (arith, Reach-SameParameters r, Step-SameParameters st)

-- In every state that fewer than 2 ^ 64 calls and returns reach, in any order and with any clock:
-- while the circuit is half-open the counter of probes is the number of probes of the current
-- generation still on their way, so it is never negative, and it is at most the `max_probes` that
-- the constructor set; while it is closed the failures counted are fewer than the threshold that the
-- constructor set; and `gen` has not wrapped.
pub probes_bounded :
    (z threshold open_for max_probes : ℤ) {n : ℕ} {s : System}
    → n < 2 ^ 64
    → Reach (start z threshold open_for max_probes) n s
    → let b = (start z threshold open_for max_probes).machine in
      (s.machine.cur ≡ state_half_open
        → (s.machine.probes ≡ pos (probes_of s.machine.gen s.running))
          × (pos (probes_of s.machine.gen s.running) ≤ℤ b.max_probes))
      × (s.machine.cur ≡ state_closed
          → (pos 0 ≤ℤ s.machine.consec_fails) × (s.machine.consec_fails <ℤ b.threshold))
      × (s.machine.gen ≤ n)
probes_bounded z t o m small r =
    let v = Reach-Inv z t o m small r in
    let p = Reach-SameParameters r in
    (
      λ h. (v.exact h, ground (arith, v.exact h, v.bounded h, p)),
      λ h. ((v.counting h).0, ground (arith, v.counting h, p)),
      v.young,
    )
