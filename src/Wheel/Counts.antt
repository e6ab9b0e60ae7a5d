-- ===== src/Wheel/Counts.antt =====
-- The wheel against the plain list of the seconds of all events ever recorded.
use circuit_breaker.Base.{
  ℕ, suc, ◌+◌, ◌-◌, ◌%◌, ◌^◌, ◌≤◌, ◌<◌, ◌≡◌, refl, ◌≢◌, ap, List, [], ◌∷◌, arith, get_or, length,
  replicate, ◌∙◌, sym, dec_lt, ◌⊎◌, ◌==◌, if◌then◌else◌, ℕ_discrete,
}
use circuit_breaker.Wheel.{
  Wheel, new_wheel, wheel_seconds, clear_from, increment, advance, record_at,
}
use circuit_breaker.Wheel.Buckets.{
  bucket-replicate, length-clear_from, clear_from_keeps, clear_from_clears, length-increment,
  increment_self, increment_ne,
}

abbrev pub count_at : ℕ → List ℕ → ℕ
count_at s [] = 0
count_at s (e ∷ log) = let rest = count_at s log in if e == s then suc rest else rest

pub record Counts (w : Wheel) (log : List ℕ) : Type 0 where
  pub size : length w.buckets ≡ wheel_seconds
  pub positive : count_at 0 log ≡ 0
  pub above : (s : ℕ) → w.last_sec < s → count_at s log ≡ 0
  pub idle : w.last_sec ≡ 0 → (s : ℕ) → get_or w.buckets (s % wheel_seconds) 0 ≡ 0
  pub window :
      (s : ℕ)
      → s ≤ w.last_sec
      → w.last_sec < s + wheel_seconds
      → get_or w.buckets (s % wheel_seconds) 0 ≡ count_at s log % 2 ^ 32

pub new_wheel-Counts : Counts new_wheel []
new_wheel-Counts = record {
  size = refl;
  positive = refl;
  above = λ s h. refl;
  idle = λ e s. bucket-replicate 600 (s % 600);
  window = λ s h k. bucket-replicate 600 (s % 600);
}

pub last_sec-advance :
    (sec : ℕ) (w : Wheel)
    → (sec ≤ (advance sec w).last_sec)
      × (w.last_sec ≤ (advance sec w).last_sec)
      × (((advance sec w).last_sec ≡ sec) ⊎ ((advance sec w).last_sec ≡ w.last_sec))
unfolding advance
last_sec-advance sec w = ground arith

-- The four ways of `advance`.
module _ (sec : ℕ) (w : Wheel) where
  advance-first : w.last_sec ≡ 0 → advance sec w ≡ record w { last_sec = sec }
  unfolding advance
  advance-first e = ground arith

  advance-past : w.last_sec ≢ 0 → sec ≤ w.last_sec → advance sec w ≡ w
  unfolding advance
  advance-past ne h = ground arith

  abbrev swept : Wheel
  swept = record { buckets = replicate wheel_seconds 0; last_sec = sec }

  advance-swept :
      w.last_sec ≢ 0 → w.last_sec < sec → w.last_sec + wheel_seconds ≤ sec → advance sec w ≡ swept
  unfolding advance
  advance-swept ne h k = ground arith

  abbrev turned : Wheel
  turned = record {
    buckets = clear_from (w.last_sec + 1) (sec - w.last_sec) w.buckets;
    last_sec = sec;
  }

  advance-turned :
      w.last_sec ≢ 0 → w.last_sec < sec → sec < w.last_sec + wheel_seconds → advance sec w ≡ turned
  unfolding advance
  advance-turned ne h k = ground arith

module _ (sec : ℕ) (w : Wheel) (log : List ℕ) (c : Counts w log) where
  first-Counts : w.last_sec ≡ 0 → Counts (record w { last_sec = sec }) log
  first-Counts e = record {
    size = c.size;
    positive = c.positive;
    above = λ s h. c.above s (omega arith);
    idle = λ e' s. c.idle e s;
    window = λ s h k. elim (ℕ_discrete s 0) [
      | yes z ↦ rw (c.idle e s, z, c.positive)
      | no nz ↦ rw (c.idle e s, c.above s (omega arith))
    ];
  }

  swept-Counts : w.last_sec < sec → w.last_sec + wheel_seconds ≤ sec → Counts (swept sec w) log
  swept-Counts h k = record {
    size = refl;
    positive = c.positive;
    above = λ s h'. c.above s (omega arith);
    idle = λ e s. bucket-replicate 600 (s % 600);
    window = λ s h' k'. rw (c.above s (omega arith)) (bucket-replicate 600 (s % 600));
  }

  turned-Counts :
      w.last_sec ≢ 0
      → w.last_sec < sec
      → sec < w.last_sec + wheel_seconds
      → Counts (turned sec w) log
  turned-Counts ne h k = record {
    size = length-clear_from (w.last_sec + 1) (sec - w.last_sec) w.buckets ∙ c.size;
    positive = c.positive;
    above = λ s h'. c.above s (omega arith);
    idle = λ e s. absurd (omega arith);
    window = λ s h' k'. elim (dec_lt w.last_sec s) [
      | yes new ↦
          clear_from_clears (w.last_sec + 1) (sec - w.last_sec) w.buckets s c.size (omega arith)
            (omega arith) (omega arith)
          ∙ ap (λ n. n % 2 ^ 32) (sym (c.above s new))
      | no old ↦
          clear_from_keeps (w.last_sec + 1) (sec - w.last_sec) w.buckets s (omega arith)
            (omega arith)
          ∙ c.window s (omega arith) (omega arith)
    ];
  }

  pub advance-Counts : Counts (advance sec w) log
  advance-Counts = elim (ℕ_discrete w.last_sec 0) [
    | yes z ↦ rw (advance-first sec w z) (first-Counts z)
    | no nz ↦ elim (dec_lt w.last_sec sec) [
      | no past ↦ rw (advance-past sec w nz (omega arith)) c
      | yes future ↦ elim (dec_lt sec (w.last_sec + wheel_seconds)) [
        | yes near ↦ rw (advance-turned sec w nz future near) (turned-Counts nz future near)
        | no far ↦
            rw (advance-swept sec w nz future (omega arith)) (swept-Counts future (omega arith))
      ]
    ]
  ]

-- One more event, on a wheel that has already advanced to its second or past it.
increment-Counts :
    (sec : ℕ) (w : Wheel) (log : List ℕ)
    → 0 < sec
    → sec ≤ w.last_sec
    → w.last_sec < sec + wheel_seconds
    → Counts w log
    → Counts (record w { buckets = increment sec w.buckets }) (sec ∷ log)
increment-Counts sec w log p h k c = record {
  size = length-increment sec w.buckets ∙ c.size;
  positive = ground (arith, c.positive);
  above = λ s h'. ground (arith, c.above s h');
  idle = λ e s. absurd (omega arith);
  window = λ s h' k'. elim (ℕ_discrete s sec) [
    | yes e ↦ ground (arith, increment_self sec w.buckets c.size, c.window s h' k')
    | no ne ↦
        ground
          (arith, increment_ne sec s w.buckets ne (omega arith) (omega arith), c.window s h' k')
  ];
}

-- An event a whole turn old is not counted, and no window will ask for it.
late-Counts :
    (sec : ℕ) (w : Wheel) (log : List ℕ)
    → 0 < sec
    → sec + wheel_seconds ≤ w.last_sec
    → Counts w log
    → Counts w (sec ∷ log)
late-Counts sec w log p h c = record {
  size = c.size;
  positive = ground (arith, c.positive);
  above = λ s h'. ground (arith, c.above s h');
  idle = λ e s. absurd (omega arith);
  window = λ s h' k'. ground (arith, c.window s h' k');
}

-- `record` keeps the wheel in step with the list of all events.
pub record_at-Counts :
    (sec : ℕ) (w : Wheel) (log : List ℕ)
    → 0 < sec
    → Counts w log
    → Counts (record_at sec w) (sec ∷ log)
unfolding record_at
record_at-Counts sec w log p c =
    let le = last_sec-advance sec w in
    let c' = advance-Counts sec w log c in
    elim (dec_lt (advance sec w).last_sec (sec + wheel_seconds)) [
      | yes counted ↦ ground (arith, increment-Counts sec (advance sec w) log p le.0 counted c')
      | no late ↦ ground (arith, late-Counts sec (advance sec w) log p (omega arith) c')
    ]
