-- ===== src/Dict.antt =====
-- Go's `map[string]V` as a list of entries with distinct keys. The order of the list stands for no
-- order of the map.
use Prim.Native.String.{String}
use text.Mathlib.Text.{◌==◌}
use text.Mathlib.TextEquality.{eq_iff}
use circuit_breaker.Base.{
  ℕ, ◌+◌, ◌≡◌, refl, ◌≢◌, List, [], ◌∷◌, Option, none, some, arith, if◌then◌else◌, length, ◌⊎◌, inl,
  inr, Bool-cases,
}
use mathlib.Core.Path.{subst}

module _ {ℓ} {V : Type ℓ} where
  unfoldable pub keys : List (String × V) → List String
  keys [] = []
  keys ((name, value) ∷ rest) = name ∷ keys rest

  -- `m[key]` with its `ok`
  unfoldable pub lookup : (key : String) (entries : List (String × V)) → Option V
  lookup key [] = none
  lookup key ((name, value) ∷ rest) = if name == key then some value else lookup key rest

  -- `delete(m, key)`
  unfoldable pub delete : (key : String) (entries : List (String × V)) → List (String × V)
  delete key [] = []
  delete key ((name, value) ∷ rest) = if name == key then rest else (name, value) ∷ delete key rest

  -- `m[key] = new`
  unfoldable pub insert : (key : String) (new : V) (entries : List (String × V)) → List (String × V)
  insert key new [] = (key, new) ∷ []
  insert key new ((name, value) ∷ rest) =
      if name == key then (name, new) ∷ rest else (name, value) ∷ insert key new rest

  abbrev pub AreDistinct : List (String × V) → Type ℓ
  AreDistinct [] = Unit
  AreDistinct ((j, v) ∷ m) = (lookup j m ≡ none) × AreDistinct m

  pub lookup-insert :
      (key asked : String) (new : V) (entries : List (String × V))
      → lookup asked (insert key new entries)
        ≡ (if key == asked then some new else lookup asked entries)
  unfolding lookup insert
  lookup-insert key asked new [] = refl
  lookup-insert key asked new ((name, value) ∷ rest) =
      let ih = lookup-insert key asked new rest in
      ground (arith, eq_iff name key, eq_iff name asked, eq_iff key asked, ih)

  pub lookup-insert_self :
      (k : String) (v : V) (m : List (String × V)) → lookup k (insert k v m) ≡ some v
  lookup-insert_self k v m = ground (arith, lookup-insert k k v m, eq_iff k k)

  pub lookup-insert_ne :
      (k j : String) (v : V) (m : List (String × V)) → k ≢ j → lookup j (insert k v m) ≡ lookup j m
  lookup-insert_ne k j v m ne = ground (arith, lookup-insert k j v m, eq_iff k j)

  -- What held of every value still does after a write of a value of which it holds.
  pub insert_every {κ} :
      (P : V → Type κ) (k : String) (v : V) (m : List (String × V))
      → P v
      → ((j : String) (u : V) → lookup j m ≡ some u → P u)
      → (j : String) (u : V) → lookup j (insert k v m) ≡ some u
      → P u
  insert_every P k v m pv all j u e = elim (Bool-cases (k == j)) [
    | inl same ↦
        let w : some v ≡ some u = ground (arith, lookup-insert k j v m) in
        let w' : v ≡ u = cc in subst P w' pv
    | inr differs ↦ all j u (ground (arith, lookup-insert k j v m))
  ]

  pub insert-AreDistinct :
      (k : String) (v : V) (m : List (String × V)) → AreDistinct m → AreDistinct (insert k v m)
  unfolding insert lookup
  insert-AreDistinct k v [] d = (refl, tt)
  insert-AreDistinct k v ((j, w) ∷ m) d =
      ground (arith, insert-AreDistinct k v m d.1, lookup-insert k j v m, eq_iff j k, eq_iff k j)

  pub length-insert :
      (k : String) (v : V) (m : List (String × V))
      → ((lookup k m ≡ none) × (length (insert k v m) ≡ length m + 1))
        ⊎ ((lookup k m ≢ none) × (length (insert k v m) ≡ length m))
  unfolding insert lookup
  length-insert k v [] = inl (refl, omega arith)
  length-insert k v ((j, w) ∷ m) = ground (arith, length-insert k v m)

  lookup-delete_absent :
      (k j : String) (m : List (String × V)) → lookup j m ≡ none → lookup j (delete k m) ≡ none
  unfolding lookup delete
  lookup-delete_absent k j [] e = refl
  lookup-delete_absent k j ((i, w) ∷ m) e = ground (arith, lookup-delete_absent k j m)

  pub delete-AreDistinct :
      (k : String) (m : List (String × V)) → AreDistinct m → AreDistinct (delete k m)
  unfolding delete
  delete-AreDistinct k [] d = tt
  delete-AreDistinct k ((j, w) ∷ m) d =
      ground (arith, delete-AreDistinct k m d.1, lookup-delete_absent k j m d.0)

  pub lookup-delete :
      (k j : String) (m : List (String × V))
      → AreDistinct m
      → lookup j (delete k m) ≡ (if k == j then none else lookup j m)
  unfolding lookup delete
  lookup-delete k j [] d = ground arith
  lookup-delete k j ((i, w) ∷ m) d =
      ground (arith, eq_iff k j, eq_iff i k, eq_iff i j, lookup-delete k j m d.1, d.0)

module _ {ℓ} {V : Type ℓ} (w : String → V → ℕ) where
  unfoldable pub sum_of : List (String × V) → ℕ
  sum_of [] = 0
  sum_of ((j, v) ∷ m) = w j v + sum_of m

  unfoldable pub weight : String → Option V → ℕ
  weight k none = 0
  weight k (some v) = w k v

  -- A write adds the weight of the new value and takes back that of the old one.
  pub sum_of-insert :
      (k : String) (v : V) (m : List (String × V))
      → sum_of (insert k v m) + weight k (lookup k m) ≡ sum_of m + w k v
  unfolding sum_of weight insert lookup
  sum_of-insert k v [] = omega arith
  sum_of-insert k v ((j, u) ∷ m) = ground (arith, eq_iff j k, sum_of-insert k v m)
