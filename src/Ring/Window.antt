-- ===== src/Ring/Window.antt =====
-- Both rings hold the last `ring_size` values that were added, in the order in which they came.
use circuit_breaker.Base.{
  ℕ, zero, suc, ◌+◌, ◌-◌, ◌%◌, ◌≤◌, ◌<◌, ◌≡◌, refl, ◌≢◌, ap, List, [], ◌∷◌, ◌++◌, arith, get_or,
  set, drop, length, replicate, length-append, length-set, dec_lt, ◌∙◌, sym,
}
use circuit_breaker.Float.{Float}
use circuit_breaker.Ring.{
  ring_size, collect, TimeRing, new_time_ring, time_ring_add, time_ring_slice, FloatRing,
  float_ring_add, float_ring_slice, new_float_ring,
}
use Prim.Native.Nat.{min}
use mathlib.Core.List.{append-nil, append_assoc}

module _ {ℓ} {A : Type ℓ} where
  get_or-set_self : (xs : List A) (i : ℕ) (v d : A) → i < length xs → get_or (set xs i v) i d ≡ v
  get_or-set_self [] i v d h = absurd (omega arith)
  get_or-set_self (x ∷ xs) zero v d h = refl
  get_or-set_self (x ∷ xs) (suc i) v d h = get_or-set_self xs i v d (omega arith)

  get_or-set_ne :
      (xs : List A) (i j : ℕ) (v d : A) → i ≢ j → get_or (set xs i v) j d ≡ get_or xs j d
  get_or-set_ne [] i j v d h = refl
  get_or-set_ne (x ∷ xs) zero zero v d h = absurd (h refl)
  get_or-set_ne (x ∷ xs) zero (suc j) v d h = refl
  get_or-set_ne (x ∷ xs) (suc i) zero v d h = refl
  get_or-set_ne (x ∷ xs) (suc i) (suc j) v d h = get_or-set_ne xs i j v d (λ e. h (ap suc e))

  get_or-append_lt :
      (xs ys : List A) (i : ℕ) (d : A) → i < length xs → get_or (xs ++ ys) i d ≡ get_or xs i d
  get_or-append_lt [] ys i d h = absurd (omega arith)
  get_or-append_lt (x ∷ xs) ys zero d h = refl
  get_or-append_lt (x ∷ xs) ys (suc i) d h = get_or-append_lt xs ys i d (omega arith)

  get_or-append_at : (xs : List A) (y d : A) (i : ℕ) → i ≡ length xs → get_or (xs ++ y ∷ []) i d ≡ y
  get_or-append_at [] y d i e = rw e
  get_or-append_at (x ∷ xs) y d zero e = absurd (omega arith)
  get_or-append_at (x ∷ xs) y d (suc i) e = get_or-append_at xs y d i (omega arith)

  pub drop-get_or :
      (xs : List A) (d : A) (i : ℕ) → i < length xs → drop i xs ≡ get_or xs i d ∷ drop (i + 1) xs
  drop-get_or [] d i h = absurd (omega arith)
  drop-get_or (x ∷ xs) d zero h = refl
  drop-get_or (x ∷ xs) d (suc i) h =
      let e : suc i + 1 ≡ suc (i + 1) = omega arith in rw (drop-get_or xs d i (omega arith), e)

  drop-length : (xs : List A) (i : ℕ) → length xs ≤ i → drop i xs ≡ []
  drop-length [] zero h = refl
  drop-length [] (suc i) h = refl
  drop-length (x ∷ xs) zero h = absurd (omega arith)
  drop-length (x ∷ xs) (suc i) h = drop-length xs i (omega arith)

  -- The array `vals` holds the end of the history `xs`.
  pub record Holds (d : A) (vals : List A) (n : ℕ) (xs : List A) : Type ℓ where
    pub size : length vals ≡ ring_size
    pub counted : n ≡ length xs
    pub last :
        (i : ℕ)
        → i < length xs
        → length xs ≤ i + ring_size
        → get_or vals (i % ring_size) d ≡ get_or xs i d

  pub Holds-empty : (d : A) → Holds d (replicate ring_size d) 0 []
  Holds-empty d = record { size = refl; counted = refl; last = λ i h. absurd (omega arith) }

  pub Holds-add :
      {d : A} {vals : List A} {n : ℕ} {xs : List A} (v : A)
      → Holds d vals n xs
      → Holds d (set vals (n % ring_size) v) (n + 1) (xs ++ v ∷ [])
  Holds-add {d} {vals} {n} {xs} v h = record {
    size = length-set vals (n % ring_size) v ∙ h.size;
    counted = omega (arith, h.counted, length-append xs (v ∷ []));
    last = λ i lt in_window. elim (dec_lt i n) [
      | yes older ↦
          get_or-set_ne vals (n % ring_size) (i % ring_size) v d
            (omega (arith, length-append xs (v ∷ []), h.counted))
          ∙ h.last i (omega (arith, h.counted)) (omega (arith, length-append xs (v ∷ [])))
          ∙ sym (get_or-append_lt xs (v ∷ []) i d (omega (arith, h.counted)))
      | no newest ↦
          let e : i ≡ n = omega (arith, h.counted, length-append xs (v ∷ [])) in
          rw (e, get_or-append_at xs v d n h.counted)
            (get_or-set_self vals (n % ring_size) v d (omega (arith, h.size)))
    ];
  }

  collect-drop :
      {d : A} {vals : List A} {n : ℕ} {xs : List A}
      → Holds d vals n xs
      → (i k : ℕ) → i + k ≡ length xs
      → k ≤ ring_size
      → collect d vals i k ≡ drop i xs
  unfolding collect
  collect-drop {xs = xs} h i zero e le = sym (drop-length xs i (omega arith))
  collect-drop {d} {xs = xs} h i (suc k) e le = rw (
    drop-get_or xs d i (omega arith),
    h.last i (omega arith) (omega arith),
    collect-drop h (i + 1) k (omega arith) (omega arith),
  )

  abbrev pub last_of : ℕ → List A → List A
  last_of k xs = drop (length xs - k) xs

  pub slice-last_of :
      {d : A} {vals : List A} {n : ℕ} {xs : List A}
      → Holds d vals n xs
      → collect d vals (n - min n ring_size) (min n ring_size) ≡ last_of ring_size xs
  slice-last_of {n} {xs} h =
      let e : n - min n ring_size ≡ length xs - ring_size = omega (arith, h.counted) in
      collect-drop h _ _ (omega (arith, h.counted)) (omega arith) ∙ ap (λ i. drop i xs) e

-- The rings after the values of the list were added, the first first.
unfoldable pub time_ring_adds : {T : Type 0} → TimeRing T → List T → TimeRing T
time_ring_adds r [] = r
time_ring_adds r (t ∷ ts) = time_ring_adds (time_ring_add t r) ts

unfoldable pub float_ring_adds : {F : Type 0} → Float F → FloatRing F → List F → FloatRing F
float_ring_adds fl r [] = r
float_ring_adds fl r (v ∷ vs) = float_ring_adds fl (float_ring_add fl v r) vs

time_ring-Holds :
    {T : Type 0} {d : T} (ts : List T) (r : TimeRing T) (xs : List T)
    → Holds d r.vals r.n xs
    → let r' = time_ring_adds r ts in Holds d r'.vals r'.n (xs ++ ts)
unfolding time_ring_adds time_ring_add
time_ring-Holds [] r xs h = rw append-nil h
time_ring-Holds (t ∷ ts) r xs h =
    rw (← append_assoc xs (t ∷ []) ts)
      (time_ring-Holds ts (time_ring_add t r) (xs ++ t ∷ []) (Holds-add t h))

-- After any additions to a new `timeRing`, `slice` gives the last 20 instants, oldest first; all of
-- them if they are fewer.
pub time_ring_slice-last_of :
    {T : Type 0} (zero_time : T) (ts : List T)
    → time_ring_slice zero_time (time_ring_adds (new_time_ring zero_time) ts) ≡ last_of ring_size ts
unfolding time_ring_slice
time_ring_slice-last_of z ts =
    slice-last_of (time_ring-Holds ts (new_time_ring z) [] (Holds-empty z))

module _ {F : Type 0} (fl : Float F) where
  float_ring-Holds :
      (vs : List F) (r : FloatRing F) (xs : List F)
      → Holds fl.zero r.vals r.n xs
      → let r' = float_ring_adds fl r vs in Holds fl.zero r'.vals r'.n (xs ++ vs)
  unfolding float_ring_adds float_ring_add
  float_ring-Holds [] r xs h = rw append-nil h
  float_ring-Holds (v ∷ vs) r xs h =
      rw (← append_assoc xs (v ∷ []) vs)
        (float_ring-Holds vs (float_ring_add fl v r) (xs ++ v ∷ []) (Holds-add v h))

  -- After any additions to a new `floatRing`, `slice` gives the last 20 samples, oldest first; all
  -- of them if they are fewer. The arithmetic plays no part in it.
  pub float_ring_slice-last_of :
      (vs : List F)
      → float_ring_slice fl (float_ring_adds fl (new_float_ring fl) vs) ≡ last_of ring_size vs
  unfolding float_ring_slice
  float_ring_slice-last_of vs =
      slice-last_of (float_ring-Holds vs (new_float_ring fl) [] (Holds-empty fl.zero))
