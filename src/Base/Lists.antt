-- ===== src/Base/Lists.antt =====
-- Lists measured and indexed by native numbers, under the library's names.
use native.Mathlib.Decide.{dec_lt}
use Prim.Native.Nat.{ℕ, zero, suc, ◌+◌, ◌-◌, ◌<◌, min}
use mathlib.Core.Path.{◌≡◌, refl, ap}
use mathlib.Core.Logic.{◌≢◌}
use mathlib.Core.List.{List, [], ◌∷◌, ◌++◌, map}
use mathlib.Core.Option.{Option, none, some}
use native.Mathlib.Omega.{arith}

module _ {ℓ} {A : Type ℓ} where
  abbrev pub length : List A → ℕ
  length [] = 0
  length (x ∷ xs) = suc (length xs)

  abbrev pub get_elem? : List A → ℕ → Option A
  get_elem? [] i = none
  get_elem? (x ∷ xs) zero = some x
  get_elem? (x ∷ xs) (suc i) = get_elem? xs i

  -- A write out of bounds changes nothing.
  abbrev pub set : List A → ℕ → A → List A
  set [] i v = []
  set (x ∷ xs) zero v = v ∷ xs
  set (x ∷ xs) (suc i) v = x ∷ set xs i v

  pub length-append : (xs ys : List A) → length (xs ++ ys) ≡ length xs + length ys
  length-append [] ys = omega arith
  length-append (x ∷ xs) ys = omega (arith, length-append xs ys)

module _ {ℓ} {A : Type ℓ} where
  pub length-set : (xs : List A) (i : ℕ) (v : A) → length (set xs i v) ≡ length xs
  length-set [] i v = refl
  length-set (x ∷ xs) zero v = refl
  length-set (x ∷ xs) (suc i) v = ap suc (length-set xs i v)

  pub get_elem?-set_self :
      (xs : List A) (i : ℕ) (v : A) → i < length xs → get_elem? (set xs i v) i ≡ some v
  get_elem?-set_self [] i v h = elim h [ ]
  get_elem?-set_self (x ∷ xs) zero v h = refl
  get_elem?-set_self (x ∷ xs) (suc i) v h = get_elem?-set_self xs i v (omega arith)

  pub get_elem?-set_ne :
      (xs : List A) {i j : ℕ} (v : A) → i ≢ j → get_elem? (set xs i v) j ≡ get_elem? xs j
  get_elem?-set_ne [] v h = refl
  get_elem?-set_ne (x ∷ xs) {i = zero} {j = zero} v h = absurd (h refl)
  get_elem?-set_ne (x ∷ xs) {i = zero} {j = suc j} v h = refl
  get_elem?-set_ne (x ∷ xs) {i = suc i} {j = zero} v h = refl
  get_elem?-set_ne (x ∷ xs) {i = suc i} {j = suc j} v h = get_elem?-set_ne xs v (λ e. h (ap suc e))

  -- Writes at two places come in any order.
  pub set_comm :
      (xs : List A) (i j : ℕ) (u v : A) → i ≢ j → set (set xs i u) j v ≡ set (set xs j v) i u
  set_comm [] i j u v h = refl
  set_comm (x ∷ xs) zero zero u v h = absurd (h refl)
  set_comm (x ∷ xs) zero (suc j) u v h = refl
  set_comm (x ∷ xs) (suc i) zero u v h = refl
  set_comm (x ∷ xs) (suc i) (suc j) u v h =
      ap (λ l. x ∷ l) (set_comm xs i j u v (λ e. h (ap suc e)))

module _ {ℓ} {A : Type ℓ} where
  abbrev pub get_or : List A → ℕ → A → A
  get_or [] i d = d
  get_or (x ∷ xs) zero d = x
  get_or (x ∷ xs) (suc i) d = get_or xs i d

  abbrev pub take : ℕ → List A → List A
  take zero xs = []
  take (suc n) [] = []
  take (suc n) (x ∷ xs) = x ∷ take n xs

  abbrev pub drop : ℕ → List A → List A
  drop zero xs = xs
  drop (suc n) [] = []
  drop (suc n) (x ∷ xs) = drop n xs

  abbrev pub replicate : ℕ → A → List A
  replicate zero a = []
  replicate (suc n) a = a ∷ replicate n a

  pub take-append-drop : (n : ℕ) (xs : List A) → take n xs ++ drop n xs ≡ xs
  take-append-drop zero xs = refl
  take-append-drop (suc n) [] = refl
  take-append-drop (suc n) (x ∷ xs) = rw (take-append-drop n xs)

  pub length-take : (n : ℕ) (xs : List A) → length (take n xs) ≡ min n (length xs)
  length-take zero xs = omega arith
  length-take (suc n) [] = omega arith
  length-take (suc n) (x ∷ xs) = omega (arith, length-take n xs)

  pub length-drop : (n : ℕ) (xs : List A) → length (drop n xs) ≡ length xs - n
  length-drop zero xs = omega arith
  length-drop (suc n) [] = omega arith
  length-drop (suc n) (x ∷ xs) = omega (arith, length-drop n xs)

  pub length-replicate : (n : ℕ) (a : A) → length (replicate n a) ≡ n
  length-replicate zero a = refl
  length-replicate (suc n) a = ap suc (length-replicate n a)

  pub length-map {κ} : {B : Type κ} (xs : List A) (f : A → B) → length (map f xs) ≡ length xs
  length-map [] f = refl
  length-map (x ∷ xs) f = ap suc (length-map xs f)

-- `Without a xs ys`: `ys` is `xs` with one occurrence of `a` taken out.
pub data Without {ℓ} {A : Type ℓ} (a : A) : List A → List A → Type ℓ where
  this : {xs : List A} → Without a (a ∷ xs) xs
  later : {x : A} {xs ys : List A} → Without a xs ys → Without a (x ∷ xs) (x ∷ ys)

pub Without-map {ℓ κ} :
    {A : Type ℓ} {B : Type κ} {a : A} {xs ys : List A} (f : A → B)
    → Without a xs ys
    → Without (f a) (map f xs) (map f ys)
Without-map f this = this
Without-map f (later w) = later (Without-map f w)

abbrev pub All {ℓ κ} : {A : Type ℓ} → (A → Type κ) → List A → Type κ
All P [] = Unit
All P (x ∷ xs) = P x × All P xs

pub All-append {ℓ κ} :
    {A : Type ℓ} (P : A → Type κ) (xs ys : List A) → All P xs → All P ys → All P (xs ++ ys)
All-append P [] ys p q = q
All-append P (x ∷ xs) ys p q = (p.0, All-append P xs ys p.1 q)

-- Taking one element out keeps what holds of all, and it held of that one.
pub All-Without {ℓ κ} :
    {A : Type ℓ} (P : A → Type κ) {a : A} {xs ys : List A}
    → Without a xs ys
    → All P xs
    → P a × All P ys
All-Without P this h = h
All-Without P (later w) h = let r = All-Without P w h.1 in (r.0, (h.0, r.1))

-- `Replaced a b xs ys`: `ys` is `xs` with one occurrence of `a` made `b` where it stands.
pub data Replaced {ℓ} {A : Type ℓ} (a b : A) : List A → List A → Type ℓ where
  this : {xs : List A} → Replaced a b (a ∷ xs) (b ∷ xs)
  later : {x : A} {xs ys : List A} → Replaced a b xs ys → Replaced a b (x ∷ xs) (x ∷ ys)

pub Replaced-map {ℓ κ} :
    {A : Type ℓ} {B : Type κ} {a b : A} {xs ys : List A} (f : A → B)
    → f a ≡ f b
    → Replaced a b xs ys
    → map f xs ≡ map f ys
Replaced-map f e this = cc
Replaced-map f e (later w) = cc (Replaced-map f e w)

pub All-Replaced {ℓ κ} :
    {A : Type ℓ} (P : A → Type κ) {a b : A} {xs ys : List A}
    → Replaced a b xs ys
    → All P xs
    → P a × (P b → All P ys)
All-Replaced P this h = (h.0, λ p. (p, h.1))
All-Replaced P (later w) h = let r = All-Replaced P w h.1 in (r.0, λ p. (h.0, r.1 p))

-- The element that was taken out can be made another where it stands.
pub Without-Replaced {ℓ} :
    {A : Type ℓ} {a : A} {xs ys : List A} (b : A)
    → Without a xs ys
    → (zs : List A) × Replaced a b xs zs
Without-Replaced b (this {xs}) = (b ∷ xs, this)
Without-Replaced b (later {x} w) = let (zs, r) = Without-Replaced b w in (x ∷ zs, later r)

-- A weight, summed over a list.
abbrev pub total {ℓ} : {A : Type ℓ} → (A → ℕ) → List A → ℕ
total w [] = 0
total w (x ∷ xs) = w x + total w xs

pub total-append {ℓ} :
    {A : Type ℓ} (w : A → ℕ) (xs ys : List A) → total w (xs ++ ys) ≡ total w xs + total w ys
total-append w [] ys = omega arith
total-append w (x ∷ xs) ys = omega (arith, total-append w xs ys)

pub total-Replaced {ℓ} :
    {A : Type ℓ} (w : A → ℕ) {a b : A} {xs ys : List A}
    → Replaced a b xs ys
    → total w ys + w a ≡ total w xs + w b
total-Replaced w this = omega arith
total-Replaced w (later r) = omega (arith, total-Replaced w r)

pub total-Without {ℓ} :
    {A : Type ℓ} (w : A → ℕ) {a : A} {xs ys : List A}
    → Without a xs ys
    → total w xs ≡ w a + total w ys
total-Without w this = refl
total-Without w (later r) = omega (arith, total-Without w r)

-- A positive sum has a positive term.
pub positive_term {ℓ} :
    {A : Type ℓ} (w : A → ℕ) (xs : List A)
    → 0 < total w xs
    → (a : A) × (ys : List A) × Without a xs ys × (0 < w a)
positive_term w [] h = absurd (omega arith)
positive_term w (x ∷ xs) h = elim (dec_lt 0 (w x)) [
  | yes p ↦ (x, xs, this, p)
  | no z ↦ let (a, ys, r, p) = positive_term w xs (omega arith) in (a, x ∷ ys, later r, p)
]
