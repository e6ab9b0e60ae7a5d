-- ===== src/Tests/Sorting.antt =====
-- A sort of names, in the order of their characters' codes.
use Prim.Native.Char.{code}
use Prim.Native.String.{String}
use text.Mathlib.TextEquality.{Char-path}
use circuit_breaker.Base.{
  ◌≡◌, refl, Bool, true, false, Bool-cases, inl, inr, List, [], ◌∷◌, if◌then◌else◌, arith, All, ltb,
}
use circuit_breaker.Spec.Sorted.{count, IsAscending, IsSort}

unfoldable pub le : String → String → Bool
le String.[] t = true
le (String.◌∷◌ c s) String.[] = false
le (String.◌∷◌ c s) (String.◌∷◌ d t) =
    let rest = le s t in
    if ltb (code c) (code d) then true else if ltb (code d) (code c) then false else rest

le_antisymm : (s t : String) → le s t ≡ true → le t s ≡ true → s ≡ t
unfolding le
le_antisymm String.[] String.[] h k = refl
le_antisymm String.[] (String.◌∷◌ d t) h k = absurd (cc)
le_antisymm (String.◌∷◌ c s) String.[] h k = absurd (cc)
le_antisymm (String.◌∷◌ c s) (String.◌∷◌ d t) h k =
    let same : code c ≡ code d = ground arith in
    let head : c ≡ d = Char-path c d same in
    let tail : s ≡ t = le_antisymm s t (ground arith) (ground arith) in cc

le_total : (s t : String) → le s t ≡ false → le t s ≡ true
unfolding le
le_total String.[] t h = absurd (cc)
le_total (String.◌∷◌ c s) String.[] h = refl
le_total (String.◌∷◌ c s) (String.◌∷◌ d t) h = ground (arith, le_total s t)

le_trans : (s t u : String) → le s t ≡ true → le t u ≡ true → le s u ≡ true
unfolding le
le_trans String.[] t u h k = refl
le_trans (String.◌∷◌ c s) String.[] u h k = absurd (cc)
le_trans (String.◌∷◌ c s) (String.◌∷◌ d t) String.[] h k = absurd (cc)
le_trans (String.◌∷◌ c s) (String.◌∷◌ d t) (String.◌∷◌ e u) h k = ground (arith, le_trans s t u)

abbrev place : String → List String → List String
place x [] = x ∷ []
place x (y ∷ ys) = let rest = place x ys in if le x y then x ∷ y ∷ ys else y ∷ rest

abbrev pub sort : List String → List String
sort [] = []
sort (x ∷ xs) = place x (sort xs)

count-place : (name x : String) (ys : List String) → count name (place x ys) ≡ count name (x ∷ ys)
count-place name x [] = refl
count-place name x (y ∷ ys) = ground (arith, count-place name x ys)

All-le :
    (x y : String) (ys : List String)
    → le x y ≡ true
    → All (λ z. le y z ≡ true) ys
    → All (λ z. le x z ≡ true) ys
All-le x y [] h a = tt
All-le x y (z ∷ ys) h a = (le_trans x y z h a.0, All-le x y ys h a.1)

All-place :
    (P : String → Type 0) (x : String) (ys : List String) → P x → All P ys → All P (place x ys)
All-place P x [] p a = (p, tt)
All-place P x (y ∷ ys) p a = elim (Bool-cases (le x y)) [
  | inl e ↦ simp (e) (p, a)
  | inr e ↦ simp (e) (a.0, All-place P x ys p a.1)
]

place-IsAscending :
    (x : String) (ys : List String) → IsAscending le ys → IsAscending le (place x ys)
place-IsAscending x [] a = (tt, tt)
place-IsAscending x (y ∷ ys) a = elim (Bool-cases (le x y)) [
  | inl e ↦ simp (e) ((refl, All-le x y ys e a.0), a)
  | inr e ↦
      simp (e)
        (All-place (λ z. le y z ≡ true) x ys (le_total x y e) a.0, place-IsAscending x ys a.1)
]

sort-IsAscending : (xs : List String) → IsAscending le (sort xs)
sort-IsAscending [] = tt
sort-IsAscending (x ∷ xs) = place-IsAscending x (sort xs) (sort-IsAscending xs)

count-sort : (name : String) (xs : List String) → count name (sort xs) ≡ count name xs
count-sort name [] = refl
count-sort name (x ∷ xs) = omega (arith, count-place name x (sort xs), count-sort name xs)

pub sort-IsSort : IsSort le sort
sort-IsSort = record {
  antisymm = le_antisymm;
  ascending = sort-IsAscending;
  same_names = count-sort;
}
