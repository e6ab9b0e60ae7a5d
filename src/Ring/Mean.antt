-- ===== src/Ring/Mean.antt =====
-- The mean that `floatRing` reports, wherever float64 arithmetic is exact.
use circuit_breaker.Base.{
  ℕ, zero, suc, ◌+◌, ◌-◌, ◌%◌, ◌≤◌, ◌<◌, ◌≡◌, refl, ap, List, [], ◌∷◌, ◌++◌, arith, get_or, drop,
  length, length-append, dec_lt, ◌∙◌, sym,
}
use circuit_breaker.Base.Int.{pos}
use circuit_breaker.Float.{Float}
use circuit_breaker.Ring.{ring_size, FloatRing, new_float_ring, float_ring_add, float_ring_mean}
use circuit_breaker.Ring.Window.{
  Holds, Holds-empty, Holds-add, drop-get_or, last_of, float_ring_adds,
}
use Prim.Native.Nat.{min}
use mathlib.Core.List.{append-nil, append_assoc}

-- What float64 addition and subtraction satisfy wherever no result is rounded.
pub record IsExact {F : Type 0} (fl : Float F) : Type 0 where
  pub zero-add : (x : F) → fl.add fl.zero x ≡ x
  pub add-zero : (x : F) → fl.add x fl.zero ≡ x
  pub add_assoc : (x y z : F) → fl.add (fl.add x y) z ≡ fl.add x (fl.add y z)
  pub sub-add : (x y : F) → fl.sub (fl.add x y) x ≡ y

module _ {F : Type 0} (fl : Float F) where
  abbrev pub sum : List F → F
  sum [] = fl.zero
  sum (x ∷ xs) = fl.add x (sum xs)

module _ {F : Type 0} (fl : Float F) (ex : IsExact fl) where
  sum-append : (xs : List F) (v : F) → sum fl (xs ++ v ∷ []) ≡ fl.add (sum fl xs) v
  sum-append [] v = ex.add-zero v ∙ sym (ex.zero-add v)
  sum-append (x ∷ xs) v = rw (sum-append xs v) (sym (ex.add_assoc x (sum fl xs) v))

  drop-append : (xs ys : List F) (i : ℕ) → i ≤ length xs → drop i (xs ++ ys) ≡ drop i xs ++ ys
  drop-append xs ys zero h = refl
  drop-append [] ys (suc i) h = absurd (omega arith)
  drop-append (x ∷ xs) ys (suc i) h = drop-append xs ys i (omega arith)

  -- `total` is the sum of the samples that the array still holds.
  abbrev Totals : FloatRing F → List F → Type 0
  Totals r xs = Holds fl.zero r.vals r.n xs × (r.total ≡ sum fl (last_of ring_size xs))

  total-room :
      (v : F) (xs : List F)
      → length xs < ring_size
      → fl.add (sum fl (last_of ring_size xs)) v ≡ sum fl (last_of ring_size (xs ++ v ∷ []))
  total-room v xs h =
      let e : length xs - ring_size ≡ 0 = omega arith in
      let e' : length (xs ++ v ∷ []) - ring_size ≡ 0 = omega (arith, length-append xs (v ∷ [])) in
      rw (e, e') (sym (sum-append xs v))

  total-full :
      (v oldest : F) (xs : List F)
      → ring_size ≤ length xs
      → oldest ≡ get_or xs (length xs - ring_size) fl.zero
      → fl.add (fl.sub (sum fl (last_of ring_size xs)) oldest) v
        ≡ sum fl (last_of ring_size (xs ++ v ∷ []))
  total-full v oldest xs h e =
      let i = length xs - ring_size in
      let after : length (xs ++ v ∷ []) - ring_size ≡ length xs - ring_size + 1 =
        omega (arith, length-append xs (v ∷ [])) in
      rw
        (
          e,
          after,
          drop-append xs (v ∷ []) (length xs - ring_size + 1) (omega arith),
          drop-get_or xs fl.zero (length xs - ring_size) (omega arith),
          ex.sub-add,
        )
        (sym (sum-append (drop (length xs - ring_size + 1) xs) v))

  add-Totals :
      (v : F) (r : FloatRing F) (xs : List F)
      → Totals r xs
      → Totals (float_ring_add fl v r) (xs ++ v ∷ [])
  unfolding float_ring_add
  add-Totals v r xs (h, t) = (
    Holds-add v h,
    elim (dec_lt (length xs) ring_size) [
      | yes room ↦ ground (arith, total-room v xs room, h.counted)
      | no full ↦ ground (
        arith,
        total-full v (get_or r.vals (r.n % ring_size) fl.zero) xs (omega arith) (
            ap (λ i. get_or r.vals i fl.zero) (omega (arith, h.counted))
            ∙ h.last (length xs - ring_size) (omega arith) (omega arith)),
        h.counted,
      )
    ],
  )

  adds-Totals :
      (vs : List F) (r : FloatRing F) (xs : List F)
      → Totals r xs
      → Totals (float_ring_adds fl r vs) (xs ++ vs)
  unfolding float_ring_adds
  adds-Totals [] r xs t = rw append-nil t
  adds-Totals (v ∷ vs) r xs t =
      rw (← append_assoc xs (v ∷ []) vs)
        (adds-Totals vs (float_ring_add fl v r) (xs ++ v ∷ []) (add-Totals v r xs t))

  -- Wherever the arithmetic is exact, the incremental mean of a ring to which some samples were
  -- added is the sum of the last 20 of them (of all, if fewer) divided by how many these are.
  pub float_ring_mean-sum :
      (vs : List F)
      → 0 < length vs
      → float_ring_mean fl (float_ring_adds fl (new_float_ring fl) vs)
        ≡ fl.div (sum fl (last_of ring_size vs)) (fl.of_int (pos (min (length vs) ring_size)))
  unfolding float_ring_mean
  float_ring_mean-sum vs h =
      let t = adds-Totals vs (new_float_ring fl) [] (Holds-empty fl.zero, refl) in
      ground (arith, t.1, t.0.counted)
