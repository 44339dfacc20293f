-- ===== src/Regime/StateManager/Statistics.antt =====
-- What src/regime/state_manager.cpp works out from the transitions on record.
use regime_flow.Base.{
  fold, ◌||◌, set, ltb, ◌&&◌, replicate, is_empty, map, leb, get_or, ◌==◌, ℕ, List, if◌then◌else◌,
  suc, ◌∷◌, [],
}
use regime_flow.Base.Double.{Double}
use regime_flow.Base.Int.{ℤ, pos}
use regime_flow.Base.Table.{Table, values}
use regime_flow.Regime.StateManager.{
  RegimeType, RegimeTransition, RegimeStateManager, code, same_regime, to_index,
  time_in_current_regime,
}

module _ (num : Double) where
  open num use {Real, nil, one, add, div, eq}

  -- `counts[regime] += 1.0` in a `std::map`, which keeps its keys in order.
  unfoldable pub count : RegimeType → Table Real → Table Real
  unfolding code
  count r [] = (code r, add nil one) ∷ []
  count r ((k, v) ∷ t) =
      if k == code r
      then (k, add v one) ∷ t
      else if ltb (code r) k
      then (code r, add nil one) ∷ (k, v) ∷ t
      else (k, v) ∷ count r t

  unfoldable pub count_all : List (RegimeTransition Real) → Table Real → Table Real
  unfolding count
  count_all [] counts = counts
  count_all (t ∷ ts) counts = count_all ts (count t.target (count t.source counts))

  unfoldable pub divide_all : Real → Table Real → Table Real
  divide_all total [] = []
  divide_all total ((k, v) ∷ t) = (k, div v total) ∷ divide_all total t

  -- The first loop of `avg_regime_duration`: the sum and the number.
  unfoldable pub durations_in : RegimeType → List (RegimeTransition Real) → Real × ℕ → Real × ℕ
  unfolding same_regime
  durations_in r [] sums = sums
  durations_in r (t ∷ ts) (total, n) =
      durations_in r ts
        (if same_regime t.source r then (add total t.duration_in_from, suc n) else (total, n))

  -- `matrix[i][j] += 1.0`
  unfoldable pub add_at : ℕ → ℕ → List (List Real) → List (List Real)
  add_at i j matrix =
      let row = get_or matrix i [] in set matrix i (set row j (add (get_or row j nil) one))

  -- The counts of the transitions and the sums of the rows.
  unfoldable pub count_transitions :
      List (RegimeTransition Real) → List (List Real) → List Real → List (List Real) × List Real
  unfolding to_index add_at
  count_transitions [] matrix sums = (matrix, sums)
  count_transitions (t ∷ ts) matrix sums =
      let i = to_index t.source in
      let j = to_index t.target in
      let skip = leb 4 i || leb 4 j in
      count_transitions ts (if skip then matrix else add_at i j matrix)
        (if skip then sums else set sums i (add (get_or sums i nil) one))

  unfoldable pub divide_row : Real → List Real → List Real
  divide_row sum row = if eq sum nil then row else map (λ v. div v sum) row

  unfoldable pub divide_rows : List Real → List (List Real) → List (List Real)
  unfolding divide_row
  divide_rows (sum ∷ sums) (row ∷ rows) = divide_row sum row ∷ divide_rows sums rows
  divide_rows [] rows = rows
  divide_rows (sum ∷ sums) [] = []

module _ (num : Double) {W : Type 0} where
  open num use {Real, nil, one, add, div, eq}

  unfoldable pub regime_frequencies : RegimeStateManager Real W → Table Real
  unfolding count count_all divide_all values
  regime_frequencies m =
      if is_empty m.transition_history
      then (if m.has_state then (code m.current_state.regime, one) ∷ [] else [])
      else let counted = count_all num m.transition_history [] in
        let counts = if m.has_state then count num m.current_state.regime counted else counted in
        let total = fold add nil (values counts) in
        if eq total nil then [] else divide_all num total counts

  unfoldable pub empirical_transition_matrix : RegimeStateManager Real W → List (List Real)
  unfolding count_transitions divide_rows
  empirical_transition_matrix m =
      let (matrix, sums) =
        count_transitions num m.transition_history (replicate 4 (replicate 4 nil))
          (replicate 4 nil) in
      divide_rows num sums matrix

module _ (num : Double) (cast : ℤ → num.Real) {W : Type 0} where
  open num use {Real, nil, one, add, div, eq}

  unfoldable pub avg_regime_duration : RegimeType → ℤ → RegimeStateManager Real W → Real
  unfolding same_regime durations_in time_in_current_regime
  avg_regime_duration r now m =
      let (total, n) = durations_in num r m.transition_history (nil, 0) in
      let here = m.has_state && same_regime m.current_state.regime r in
      let total' = if here then add total (time_in_current_regime num cast now m) else total in
      let n' = if here then suc n else n in if n' == 0 then nil else div total' (cast (pos n'))
