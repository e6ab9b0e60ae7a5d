-- ===== src/Spec/Sorted.antt =====
-- What `sort.Strings` does to lists of names: a list of the same names, in ascending order.
use Prim.Native.String.{String}
use text.Mathlib.Text.{◌==◌}
use text.Mathlib.TextEquality.{eq_iff}
use mathlib.Core.Path.{subst}
use circuit_breaker.Base.{
  ℕ, ◌+◌, ◌<◌, ◌≡◌, refl, sym, ap, ◌∙◌, Bool, true, Bool-cases, ◌⊎◌, inl, inr, List, [], ◌∷◌,
  if◌then◌else◌, arith, All,
}

abbrev once : String → String → ℕ
once name x = if x == name then 1 else 0

abbrev pub count : String → List String → ℕ
count name [] = 0
count name (x ∷ xs) = once name x + count name xs

abbrev pub IsAscending : (String → String → Bool) → List String → Type 0
IsAscending le [] = Unit
IsAscending le (x ∷ xs) = All (λ y. le x y ≡ true) xs × IsAscending le xs

-- `le` is the order of strings.
pub record IsSort (le : String → String → Bool) (sort : List String → List String) : Type 0 where
  pub antisymm : (a b : String) → le a b ≡ true → le b a ≡ true → a ≡ b
  pub ascending : (names : List String) → IsAscending le (sort names)
  pub same_names :
      (name : String) (names : List String) → count name (sort names) ≡ count name names

module _ (le : String → String → Bool)
    (antisymm : (a b : String) → le a b ≡ true → le b a ≡ true → a ≡ b) where
  All-count :
      (P : String → Type 0) (name : String) (xs : List String)
      → All P xs
      → 0 < count name xs
      → P name
  All-count P name [] h c = absurd (omega arith)
  All-count P name (x ∷ xs) h c = elim (Bool-cases (x == name)) [
    | inl e ↦ let same : x ≡ name = ground (arith, eq_iff x name) in subst P same h.0
    | inr e ↦ All-count P name xs h.1 (ground arith)
  ]

  count_self : (x : String) (xs : List String) → 0 < count x (x ∷ xs)
  count_self x xs = ground (arith, eq_iff x x)

  head_le :
      (a b : String) (xs : List String)
      → IsAscending le (a ∷ xs)
      → 0 < count b (a ∷ xs)
      → (a ≡ b) ⊎ (le a b ≡ true)
  head_le a b xs s c = elim (Bool-cases (a == b)) [
    | inl e ↦ inl (ground (arith, eq_iff a b))
    | inr e ↦ inr (All-count (λ y. le a y ≡ true) b xs s.0 (ground arith))
  ]

  same_head :
      (a b : String) (xs ys : List String)
      → IsAscending le (a ∷ xs)
      → IsAscending le (b ∷ ys)
      → ((name : String) → count name (a ∷ xs) ≡ count name (b ∷ ys))
      → a ≡ b
  same_head a b xs ys s t e = elim (head_le a b xs s (omega (arith, e b, count_self b ys))) [
    | inl same ↦ same
    | inr below ↦ elim (head_le b a ys t (omega (arith, e a, count_self a xs))) [
      | inl same ↦ sym same
      | inr above ↦ antisymm a b below above
    ]
  ]

  -- Ascending lists of the same names are equal.
  pub ascending_unique :
      (xs ys : List String)
      → IsAscending le xs
      → IsAscending le ys
      → ((name : String) → count name xs ≡ count name ys)
      → xs ≡ ys
  ascending_unique [] [] s t e = refl
  ascending_unique [] (b ∷ ys) s t e = absurd (omega (arith, e b, count_self b ys))
  ascending_unique (a ∷ xs) [] s t e = absurd (omega (arith, e a, count_self a xs))
  ascending_unique (a ∷ xs) (b ∷ ys) s t e =
      let same = same_head a b xs ys s t e in
      let rest =
        ascending_unique xs ys s.1 t.1 (λ name. omega (arith, e name, ap (once name) same)) in
      cc

-- Lists of the same names are sorted to one list.
pub sort_same :
    {le : String → String → Bool} {sort : List String → List String}
    → IsSort le sort
    → (xs ys : List String) → ((name : String) → count name xs ≡ count name ys)
    → sort xs ≡ sort ys
sort_same {le} {sort} h xs ys e =
    ascending_unique le h.antisymm (sort xs) (sort ys) (h.ascending xs) (h.ascending ys)
      (λ name. h.same_names name xs ∙ e name ∙ sym (h.same_names name ys))
