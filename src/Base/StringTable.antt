-- ===== src/Base/StringTable.antt =====
-- `std::unordered_map` and `std::map` with strings as keys, as an association list.
use text.Mathlib.Text.{◌==◌ as str_eq}
use text.Mathlib.TextEquality.{eq_iff}
use regime_flow.Base.{◌≡◌, refl, arith, String, Option, none, some, List, [], ◌∷◌, if◌then◌else◌}

abbrev pub StringTable {ℓ} : Type ℓ → Type ℓ
StringTable V = List (String × V)

module _ {ℓ} {V : Type ℓ} where
  -- `find`
  unfoldable pub find : String → StringTable V → Option V
  find k [] = none
  find k ((j, v) ∷ t) = if str_eq j k then some v else find k t

  -- `operator[]` on the left of an assignment
  unfoldable pub put : String → V → StringTable V → StringTable V
  put k v [] = (k, v) ∷ []
  put k v ((j, w) ∷ t) = if str_eq j k then (k, v) ∷ t else (j, w) ∷ put k v t

  -- `erase`
  unfoldable pub remove : String → StringTable V → StringTable V
  remove k [] = []
  remove k ((j, w) ∷ t) = if str_eq j k then t else (j, w) ∷ remove k t

  pub find-put :
      (k j : String) (v : V) (t : StringTable V)
      → find j (put k v t) ≡ (if str_eq k j then some v else find j t)
  unfolding find put
  find-put k j v [] = refl
  find-put k j v ((i, w) ∷ t) = ground (arith, eq_iff k j, eq_iff i k, eq_iff i j, find-put k j v t)
