-- ===== src/Wheel/Buckets.antt =====
-- What the wheel's operations do to its array of buckets.
use circuit_breaker.Base.{
  ℕ, zero, suc, ◌+◌, ◌%◌, ◌^◌, ◌≤◌, ◌<◌, ◌≡◌, refl, ◌≢◌, ap, List, [], ◌∷◌, arith, get_or, set,
  length, length-set, replicate, ◌∙◌, dec_lt,
}
use circuit_breaker.Wheel.{wheel_seconds, clear_from, increment}

pub bucket-set_self : (bs : List ℕ) (i v : ℕ) → i < length bs → get_or (set bs i v) i 0 ≡ v
bucket-set_self [] i v h = absurd (omega arith)
bucket-set_self (b ∷ bs) zero v h = refl
bucket-set_self (b ∷ bs) (suc i) v h = bucket-set_self bs i v (omega arith)

pub bucket-set_ne : (bs : List ℕ) (i j v : ℕ) → i ≢ j → get_or (set bs i v) j 0 ≡ get_or bs j 0
bucket-set_ne [] i j v h = refl
bucket-set_ne (b ∷ bs) zero zero v h = absurd (h refl)
bucket-set_ne (b ∷ bs) zero (suc j) v h = refl
bucket-set_ne (b ∷ bs) (suc i) zero v h = refl
bucket-set_ne (b ∷ bs) (suc i) (suc j) v h = bucket-set_ne bs i j v (λ e. h (ap suc e))

pub bucket-replicate : (n i : ℕ) → get_or {A = ℕ} (replicate n 0) i 0 ≡ 0
bucket-replicate zero i = refl
bucket-replicate (suc n) zero = refl
bucket-replicate (suc n) (suc i) = bucket-replicate n i

pub length-clear_from : (s k : ℕ) (bs : List ℕ) → length (clear_from s k bs) ≡ length bs
unfolding clear_from
length-clear_from s zero bs = refl
length-clear_from s (suc k) bs =
    length-clear_from (s + 1) k (set bs (s % wheel_seconds) 0) ∙ length-set bs (s % wheel_seconds) 0

-- A second less than a whole turn behind the cleared ones keeps its bucket.
pub clear_from_keeps :
    (s k : ℕ) (bs : List ℕ) (x : ℕ)
    → x < s
    → s + k ≤ x + wheel_seconds
    → get_or (clear_from s k bs) (x % wheel_seconds) 0 ≡ get_or bs (x % wheel_seconds) 0
unfolding clear_from
clear_from_keeps s zero bs x h le = refl
clear_from_keeps s (suc k) bs x h le =
    clear_from_keeps (s + 1) k (set bs (s % wheel_seconds) 0) x (omega arith) (omega arith)
    ∙ bucket-set_ne bs (s % wheel_seconds) (x % wheel_seconds) 0 (omega arith)

-- A cleared second has the bucket 0.
pub clear_from_clears :
    (s k : ℕ) (bs : List ℕ) (x : ℕ)
    → length bs ≡ wheel_seconds
    → s ≤ x
    → x < s + k
    → k ≤ wheel_seconds
    → get_or (clear_from s k bs) (x % wheel_seconds) 0 ≡ 0
unfolding clear_from
clear_from_clears s zero bs x size h lt le = absurd (omega arith)
clear_from_clears s (suc k) bs x size h lt le = elim (dec_lt s x) [
  | yes later ↦
      clear_from_clears (s + 1) k (set bs (s % wheel_seconds) 0) x
        (length-set bs (s % wheel_seconds) 0 ∙ size) (omega arith) (omega arith) (omega arith)
  | no now ↦
      let e : x ≡ s = omega arith in
      rw e (
        clear_from_keeps (s + 1) k (set bs (s % wheel_seconds) 0) s (omega arith) (omega arith)
        ∙ bucket-set_self bs (s % wheel_seconds) 0 (omega arith))
]

pub length-increment : (s : ℕ) (bs : List ℕ) → length (increment s bs) ≡ length bs
unfolding increment
length-increment s bs = length-set bs _ _

pub increment_self :
    (s : ℕ) (bs : List ℕ)
    → length bs ≡ wheel_seconds
    → get_or (increment s bs) (s % wheel_seconds) 0 ≡ (get_or bs (s % wheel_seconds) 0 + 1) % 2 ^ 32
unfolding increment
increment_self s bs size = bucket-set_self bs _ _ (omega arith)

pub increment_ne :
    (s x : ℕ) (bs : List ℕ)
    → x ≢ s
    → x < s + wheel_seconds
    → s < x + wheel_seconds
    → get_or (increment s bs) (x % wheel_seconds) 0 ≡ get_or bs (x % wheel_seconds) 0
unfolding increment
increment_ne s x bs ne h k = bucket-set_ne bs _ _ _ (omega arith)
