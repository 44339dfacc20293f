-- ===== src/Regime/StateManager/Matrix.antt =====
-- The matrix of the observed transitions (`empirical_transition_matrix` of state_manager.cpp).
use regime_flow.Base.{
  sym, replicate, map, ◌||◌, leb, false, get_or-set, ◌∙◌, length-set, ◌&&◌, set, ◌≡◌, ◌==◌, arith,
  length, get_or, if◌then◌else◌, ◌<◌, List, ℕ, suc, zero, refl, ◌∷◌, [],
}
use regime_flow.Base.Double.{Double}
use regime_flow.Regime.StateManager.{RegimeStateManager, RegimeType, RegimeTransition, to_index}
use regime_flow.Regime.StateManager.Statistics.{
  divide_row, empirical_transition_matrix, divide_rows, add_at, count_transitions,
}

to_index-lt : (r : RegimeType) → to_index r < 4
unfolding to_index
to_index-lt r = ground arith

get_or-map :
    {A B : Type 0} (f : A → B) (l : List A) (i : ℕ) (d : A) (e : B)
    → i < length l
    → get_or (map f l) i e ≡ f (get_or l i d)
get_or-map f [] i d e h = absurd (omega arith)
get_or-map f (x ∷ l) zero d e h = refl
get_or-map f (x ∷ l) (suc i) d e h = get_or-map f l i d e (omega arith)

get_or-replicate :
    {A : Type 0} (n : ℕ) (x : A) (i : ℕ) (d : A) → i < n → get_or (replicate n x) i d ≡ x
get_or-replicate zero x i d h = absurd (omega arith)
get_or-replicate (suc n) x zero d h = refl
get_or-replicate (suc n) x (suc i) d h = get_or-replicate n x i d (omega arith)

module _ {R : Type 0} where
  -- The number of transitions out of index `i`, and of those that go to `j`.
  abbrev pub leaving : ℕ → List (RegimeTransition R) → ℕ
  leaving i [] = 0
  leaving i (t ∷ ts) = if to_index t.source == i then suc (leaving i ts) else leaving i ts

  abbrev pub going : ℕ → ℕ → List (RegimeTransition R) → ℕ
  going i j [] = 0
  going i j (t ∷ ts) =
      if (to_index t.source == i) && (to_index t.target == j)
      then suc (going i j ts)
      else going i j ts

module _ (num : Double) where
  open num use {Real, nil, one, add, div, eq}

  -- `n` times one, added to `x`.
  abbrev pub count_on : ℕ → Real → Real
  count_on zero x = x
  count_on (suc n) x = count_on n (add x one)

  abbrev pub entry : ℕ → ℕ → List (List Real) → Real
  entry i j m = get_or (get_or m i []) j nil

  record IsSquare (m : List (List Real)) : Type 0 where
    rows : length m ≡ 4
    columns : (i : ℕ) → i < 4 → length (get_or m i []) ≡ 4

  add_at-IsSquare :
      (a b : ℕ) (m : List (List Real)) → a < 4 → IsSquare m → IsSquare (add_at num a b m)
  unfolding add_at
  add_at-IsSquare a b m h s =
      let row = get_or m a [] in
      let row' = set row b (add (get_or row b nil) one) in
      record {
        rows = length-set m a row' ∙ s.rows;
        columns = λ i l. ground (
          arith,
          get_or-set m a i row' [],
          s.rows,
          s.columns i,
          s.columns a,
          length-set row b (add (get_or row b nil) one),
        );
      }

  entry-add_at :
      (a b i j : ℕ) (m : List (List Real))
      → a < 4
      → b < 4
      → IsSquare m
      → entry i j (add_at num a b m)
        ≡ (if (a == i) && (b == j) then add (entry i j m) one else entry i j m)
  unfolding add_at
  entry-add_at a b i j m h k s =
      let row = get_or m a [] in
      let row' = set row b (add (get_or row b nil) one) in
      ground (
        arith,
        get_or-set m a i row' [],
        s.rows,
        s.columns a,
        get_or-set row b j (add (get_or row b nil) one) nil,
      )

  -- The two loops of counting, for one entry and one sum.
  count-entry :
      (ts : List (RegimeTransition Real)) (m : List (List Real)) (sums : List Real) (i j : ℕ)
      → IsSquare m
      → length sums ≡ 4
      → let (m', sums') = count_transitions num ts m sums in
        IsSquare m'
        × (length sums' ≡ 4)
        × (entry i j m' ≡ count_on (going i j ts) (entry i j m))
        × (get_or sums' i nil ≡ count_on (leaving i ts) (get_or sums i nil))
  unfolding count_transitions
  count-entry [] m sums i j s l = (s, l, refl, refl)
  count-entry (t ∷ ts) m sums i j s l =
      let a = to_index t.source in
      let b = to_index t.target in
      let kept : (leb 4 a || leb 4 b) ≡ false =
        ground (arith, to_index-lt t.source, to_index-lt t.target) in
      let sums' = set sums a (add (get_or sums a nil) one) in
      let ih =
        count-entry ts (add_at num a b m) sums' i j (add_at-IsSquare a b m (to_index-lt t.source) s)
          (length-set sums a _ ∙ l) in
      rw (kept, count_transitions)
        (
          ih.0,
          ih.1,
          ground
              (arith, ih.2, entry-add_at a b i j m (to_index-lt t.source) (to_index-lt t.target) s),
          ground (
            arith,
            ih.3,
            get_or-set sums a i (add (get_or sums a nil) one) nil,
            l,
            to_index-lt t.source,
          ),
        )

  divide_rows-entry :
      (sums : List Real) (m : List (List Real)) (i j : ℕ)
      → length sums ≡ length m
      → i < length m
      → j < length (get_or m i [])
      → entry i j (divide_rows num sums m) ≡ (
          if eq (get_or sums i nil) nil then entry i j m else div (entry i j m) (get_or sums i nil))
  unfolding divide_rows divide_row
  divide_rows-entry [] [] i j l h k = absurd (omega arith)
  divide_rows-entry [] (row ∷ rows) i j l h k = absurd (omega arith)
  divide_rows-entry (sum ∷ sums) [] i j l h k = absurd (omega arith)
  divide_rows-entry (sum ∷ sums) (row ∷ rows) zero j l h k =
      ground (arith, get_or-map (λ (v : Real). div v sum) row j nil nil k)
  divide_rows-entry (sum ∷ sums) (row ∷ rows) (suc i) j l h k =
      divide_rows-entry sums rows i j (omega arith) (omega arith) k

  zero-IsSquare : IsSquare (replicate 4 (replicate 4 nil))
  zero-IsSquare = record {
    rows = refl;
    columns = λ i h. ground (arith, get_or-replicate 4 (replicate 4 nil) i [] h);
  }

module _ (num : Double) {W : Type 0} where
  open num use {Real, nil, one, add, div, eq}

  -- For two of the four indices, the entry of the matrix is the number of transitions on record from a regime
  -- of the first to one of the second, counted in doubles, over the number of those from the first, and
  -- is not divided where this is zero.
  pub empirical_transition_matrix-entry :
      (m : RegimeStateManager Real W) (i j : ℕ)
      → i < 4
      → j < 4
      → let n = count_on num (going i j m.transition_history) nil in
        let total = count_on num (leaving i m.transition_history) nil in
        entry num i j (empirical_transition_matrix num m)
        ≡ (if eq total nil then n else div n total)
  unfolding empirical_transition_matrix
  empirical_transition_matrix-entry m i j h k =
      let zeros = replicate 4 (replicate 4 nil) in
      let r =
        count-entry num m.transition_history zeros (replicate 4 nil) i j (zero-IsSquare num) refl in
      let (matrix, sums) = count_transitions num m.transition_history zeros (replicate 4 nil) in
      let square : IsSquare num matrix = r.0 in
      ground (
        arith,
        divide_rows-entry num sums matrix i j (r.1 ∙ sym square.rows) (omega (arith, square.rows))
            (omega (arith, square.columns i h)),
        r.2,
        r.3,
        get_or-replicate 4 (replicate 4 nil) i [] h,
        get_or-replicate 4 nil j nil k,
        get_or-replicate 4 nil i nil h,
      )
