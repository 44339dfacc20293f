-- ===== src/Regime/StateManager/Newest.antt =====
-- The end of a list that only grows, and the comparison of regimes (state_manager.cpp).
use native.Mathlib.Decide.{dec_lt}
use regime_flow.Base.{
  sym, length-drop, ap, Bool-cases, length-append, inr, inl, false, ◌≢◌, ◌&&◌, ◌-◌, ltb, length,
  ◌==◌, ◌++◌, ◌≤◌, if◌then◌else◌, arith, List, drop, ℕ, ◌≡◌, suc, zero, refl, true, ◌∷◌, [],
}
use regime_flow.Regime.StateManager.{RegimeType, code, same_regime}

pub RegimeType-discrete : Discrete RegimeType
RegimeType-discrete = hlevel

same_regime-eq : (a b : RegimeType) → same_regime a b ≡ true → a ≡ b
unfolding same_regime code
same_regime-eq a b h = ground arith

pub same_regime_self : (a : RegimeType) → same_regime a a ≡ true
unfolding same_regime code
same_regime_self a = ground arith

pub not_same : (a b : RegimeType) → b ≢ a → same_regime a b ≡ false
not_same a b ne = elim (Bool-cases (same_regime a b)) [
  | inl e ↦ absurd (ne (sym (same_regime-eq a b e)))
  | inr e ↦ e
]

module _ {T : Type 0} where
  -- The last `size` of a list, or all when `size` is zero.
  abbrev pub newest : ℕ → List T → List T
  newest size l = if size == 0 then l else drop (length l - size) l

  drop-append : (n : ℕ) (xs ys : List T) → n ≤ length xs → drop n (xs ++ ys) ≡ drop n xs ++ ys
  unfolding drop
  drop-append zero xs ys h = refl
  drop-append (suc n) [] ys h = absurd (omega arith)
  drop-append (suc n) (x ∷ xs) ys h = drop-append n xs ys (omega arith)

  drop_next : (n : ℕ) (xs : List T) → drop 1 (drop n xs) ≡ drop (suc n) xs
  unfolding drop
  drop_next zero xs = refl
  drop_next (suc n) [] = refl
  drop_next (suc n) (x ∷ xs) = drop_next n xs

  drop_none : (n : ℕ) (xs : List T) → n ≡ 0 → drop n xs ≡ xs
  unfolding drop
  drop_none n xs e = rw e

  pub newest_snoc :
      (size : ℕ) (past : List T) (t : T)
      → (let h = newest size past ++ t ∷ [] in
          if ltb 0 size && ltb size (length h) then drop 1 h else h)
        ≡ newest size (past ++ t ∷ [])
  newest_snoc zero past t = ground arith
  newest_snoc (suc n) past t = elim (dec_lt (length past) (suc n)) [
    | yes h ↦
        let e : length past - suc n ≡ 0 = omega arith in
        let f : length (past ++ t ∷ []) - suc n ≡ 0 = omega (arith, length-append past (t ∷ [])) in
        ground (
          arith,
          drop_none (length past - suc n) past e,
          drop_none (length (past ++ t ∷ []) - suc n) (past ++ t ∷ []) f,
          length-append past (t ∷ []),
        )
    | no h ↦
        let k = length past - suc n in
        let e : length (past ++ t ∷ []) - suc n ≡ suc k =
          omega (arith, length-append past (t ∷ [])) in
        ground (
          arith,
          length-append past (t ∷ []),
          length-append (drop k past) (t ∷ []),
          length-drop k past,
          drop_next k (past ++ t ∷ []),
          drop-append k past (t ∷ []),
          ap (λ (j : ℕ). drop j (past ++ t ∷ [])) e,
        )
  ]

  pub newest_nil : (size : ℕ) → [] ≡ newest size []
  newest_nil size = ground (arith, drop_none (0 - size) [])
