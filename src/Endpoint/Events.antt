-- ===== src/Endpoint/Events.antt =====
-- A family of events against the list of the events that it recorded, the newest first.
use circuit_breaker.Base.{ℕ, suc, ◌^◌, ◌≤◌, ◌<◌, ◌≡◌, List, [], ◌∷◌, ◌++◌, arith, length}
use circuit_breaker.Base.Int.{ℤ}
use circuit_breaker.Base.Words.{sub_time}
use circuit_breaker.Float.{Float}
use circuit_breaker.Ring.{
  ring_size, float_ring_add, time_ring_add, float_ring_slice, time_ring_slice,
}
use circuit_breaker.Ring.Window.{Holds, Holds-empty, Holds-add, last_of, slice-last_of}
use circuit_breaker.Wheel.{Wheel, record_at, count_last}
use circuit_breaker.Wheel.Counts.{
  Counts, new_wheel-Counts, record_at-Counts, advance-Counts, last_sec-advance,
}
use circuit_breaker.Wheel.Recent.{recent, count_last-Counts}
use circuit_breaker.Endpoint.{FamilyState, unix, new_family, family_record}

-- A call of `record`: its arguments, and the clock reading inside it.
pub record Event : Type 0 where
  pub start : ℤ
  pub end : ℤ
  pub now : ℤ

abbrev pub seconds_of : List Event → List ℕ
seconds_of [] = []
seconds_of (e ∷ evs) = unix e.start ∷ seconds_of evs

abbrev pub latest : List Event → ℕ
latest [] = 0
latest (e ∷ evs) = unix e.now

-- The clock never runs backwards, and starts after 1970.
abbrev pub Clocked : List Event → Type 0
Clocked [] = Unit
Clocked (e ∷ evs) =
    (0 < unix e.start) × (unix e.start ≤ unix e.now) × (latest evs ≤ unix e.now) × Clocked evs

last_sec-count_last :
    (sec seconds : ℕ) (w : Wheel) → w.last_sec ≤ sec → (count_last sec seconds w).1.last_sec ≡ sec
unfolding count_last
last_sec-count_last sec seconds w h = omega (arith, last_sec-advance sec w)

count_last-keeps :
    (sec seconds : ℕ) (w : Wheel) (log : List ℕ)
    → Counts w log
    → Counts (count_last sec seconds w).1 log
unfolding count_last
count_last-keeps sec seconds w log c = advance-Counts sec w log c

last_sec-record_at :
    (sec k : ℕ) (w : Wheel) → sec ≤ k → w.last_sec ≤ k → (record_at sec w).last_sec ≤ k
unfolding record_at
last_sec-record_at sec k w h l = ground (arith, last_sec-advance sec w)

module _ {F : Type 0} (fl : Float F) (zero_time : ℤ) where
  unfoldable pub family_of : List Event → FamilyState F
  family_of [] = new_family fl zero_time
  family_of (e ∷ evs) = family_record fl e.start e.end e.now (family_of evs)

  abbrev pub duration_of : Event → F
  duration_of e = fl.seconds (sub_time e.end e.start)

  InStep : FamilyState F → List Event → Type 0
  InStep f evs = Counts f.wheel (seconds_of evs) × (f.wheel.last_sec ≤ latest evs)

  abbrev pub RatiosExact : FamilyState F → List Event → Type 0
  RatiosExact f [] = Unit
  RatiosExact f (e ∷ evs) =
      (f.ratio01 ≡ recent (unix e.now) 60 (seconds_of (e ∷ evs)))
      × (f.ratio05 ≡ recent (unix e.now) 300 (seconds_of (e ∷ evs)))
      × (f.ratio10 ≡ recent (unix e.now) 600 (seconds_of (e ∷ evs)))

  family_record-InStep :
      (e : Event) (evs : List Event) (f : FamilyState F)
      → InStep f evs
      → Clocked (e ∷ evs)
      → suc (length (seconds_of evs)) < 2 ^ 31
      → let f' = family_record fl e.start e.end e.now f in
        InStep f' (e ∷ evs) × RatiosExact f' (e ∷ evs)
  unfolding family_record InStep
  family_record-InStep e evs f (c, l) k few =
      let sec = unix e.now in
      let w0 = record_at (unix e.start) f.wheel in
      let w1 = (count_last sec 60 w0).1 in
      let w2 = (count_last sec 300 w1).1 in
      let log = seconds_of (e ∷ evs) in
      let c0 = record_at-Counts (unix e.start) f.wheel (seconds_of evs) k.0 c in
      let c1 = count_last-keeps sec 60 w0 log c0 in
      let c2 = count_last-keeps sec 300 w1 log c1 in
      let l0 = last_sec-record_at (unix e.start) sec f.wheel k.1 (omega arith) in
      let l1 = last_sec-count_last sec 60 w0 l0 in
      let l2 = last_sec-count_last sec 300 w1 (omega (arith, l1)) in
      let l3 = last_sec-count_last sec 600 w2 (omega (arith, l2)) in
      (
        (count_last-keeps sec 600 w2 log c2, omega (arith, l3)),
        (
          count_last-Counts sec 60 w0 log c0 few (omega arith) (omega (arith, l0)),
          count_last-Counts sec 300 w1 log c1 few (omega arith) (omega (arith, l1)),
          count_last-Counts sec 600 w2 log c2 few (omega arith) (omega (arith, l2)),
        ),
      )

  family_of-InStep :
      (evs : List Event)
      → Clocked evs
      → length (seconds_of evs) < 2 ^ 31
      → InStep (family_of evs) evs
  unfolding family_of InStep
  family_of-InStep [] k few = (new_wheel-Counts, omega arith)
  family_of-InStep (e ∷ evs) k few =
      (family_record-InStep e evs (family_of evs) (family_of-InStep evs k.3 (omega arith)) k few).0

  pub family_of-RatiosExact :
      (evs : List Event)
      → Clocked evs
      → length (seconds_of evs) < 2 ^ 31
      → RatiosExact (family_of evs) evs
  unfolding family_of
  family_of-RatiosExact [] k few = tt
  family_of-RatiosExact (e ∷ evs) k few =
      (family_record-InStep e evs (family_of evs) (family_of-InStep evs k.3 (omega arith)) k few).1

  abbrev pub oldest_first {ℓ} : {A : Type ℓ} → (Event → A) → List Event → List A
  oldest_first f [] = []
  oldest_first f (e ∷ evs) = oldest_first f evs ++ f e ∷ []

  starts-Holds :
      (evs : List Event)
      → let r = (family_of evs).starts in
        Holds zero_time r.vals r.n (oldest_first (λ e. e.start) evs)
  unfolding family_of family_record time_ring_add
  starts-Holds [] = Holds-empty zero_time
  starts-Holds (e ∷ evs) = Holds-add e.start (starts-Holds evs)

  durations-Holds :
      (evs : List Event)
      → let r = (family_of evs).durations in Holds fl.zero r.vals r.n (oldest_first duration_of evs)
  unfolding family_of family_record float_ring_add
  durations-Holds [] = Holds-empty fl.zero
  durations-Holds (e ∷ evs) = Holds-add (duration_of e) (durations-Holds evs)

  pub starts_slice :
      (evs : List Event)
      → time_ring_slice zero_time (family_of evs).starts
        ≡ last_of ring_size (oldest_first (λ e. e.start) evs)
  unfolding time_ring_slice
  starts_slice evs = slice-last_of (starts-Holds evs)

  pub durations_slice :
      (evs : List Event)
      → float_ring_slice fl (family_of evs).durations
        ≡ last_of ring_size (oldest_first duration_of evs)
  unfolding float_ring_slice
  durations_slice evs = slice-last_of (durations-Holds evs)
