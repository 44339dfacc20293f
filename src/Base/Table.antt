-- ===== src/Base/Table.antt =====
-- `std::unordered_map` with integer keys, as an association list with one entry for a key. Its
-- iteration order, which the standard leaves open, is here the order of first insertion.
use regime_flow.Base.{
  ℕ, ◌≡◌, refl, Bool, Option, none, some, List, [], ◌∷◌, arith, ◌==◌, if◌then◌else◌, is_some,
}

abbrev pub Table {ℓ} : Type ℓ → Type ℓ
Table V = List (ℕ × V)

module _ {ℓ} {V : Type ℓ} where
  -- `find`
  unfoldable pub lookup : ℕ → Table V → Option V
  lookup k [] = none
  lookup k ((j, v) ∷ t) = if j == k then some v else lookup k t

  -- `operator[]` on the left of an assignment
  unfoldable pub insert : ℕ → V → Table V → Table V
  insert k v [] = (k, v) ∷ []
  insert k v ((j, w) ∷ t) = if j == k then (k, v) ∷ t else (j, w) ∷ insert k v t

  -- `erase`
  unfoldable pub erase : ℕ → Table V → Table V
  erase k [] = []
  erase k ((j, w) ∷ t) = if j == k then t else (j, w) ∷ erase k t

  -- `views::values`
  unfoldable pub values : Table V → List V
  values [] = []
  values ((j, w) ∷ t) = w ∷ values t

  abbrev pub contains : ℕ → Table V → Bool
  contains k t = is_some (lookup k t)

  pub lookup-insert :
      (k j : ℕ) (v : V) (t : Table V)
      → lookup j (insert k v t) ≡ (if k == j then some v else lookup j t)
  unfolding lookup insert
  lookup-insert k j v [] = refl
  lookup-insert k j v ((i, w) ∷ t) = ground (arith, lookup-insert k j v t)
