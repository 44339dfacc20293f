-- ===== src/Data/Bars/Ranges.antt =====
-- The prices of a bar of src/data/bar_builder.cpp lie between its low and its high.
use regime_flow.Data.Bars.Splits.{aggregate-Splits, aggregate}
use regime_flow.Data.Bars.Runs.{summary, last_price, lowest_price, highest}
use regime_flow.Data.Bars.{new_builder, Config, Tick, BarNumbers, Bar}
use regime_flow.Base.Double.{Double}
use regime_flow.Base.{
  sym, subst, map, All, arith, Bool-cases, List, if◌then◌else◌, ◌≡◌, inr, inl, false, true, ◌∷◌, [],
}

module _ (num : Double) where
  open num use {Real, lt}

  -- No price is below the low or above the high.
  abbrev pub IsRanged : Bar Real → Type 0
  IsRanged bar =
      (lt bar.high bar.open_price ≡ false)
      × (lt bar.high bar.close ≡ false)
      × (lt bar.open_price bar.low ≡ false)
      × (lt bar.close bar.low ≡ false)

  module _ (irrefl : (a : Real) → lt a a ≡ false)
      (trans : (a b c : Real) → lt a b ≡ true → lt b c ≡ true → lt a c ≡ true) where
    raise-above : (p h x : Real) → lt h p ≡ false → lt (if lt h x then x else h) p ≡ false
    raise-above p h x e = elim (Bool-cases (lt h x)) [
      | inl a ↦ rw a (elim (Bool-cases (lt x p)) [
        | inl b ↦ absurd (grind (arith, trans h x p a b, e))
        | inr b ↦ b
      ])
      | inr a ↦ rw a e
    ]

    raise_self : (h x : Real) → lt (if lt h x then x else h) x ≡ false
    raise_self h x = elim (Bool-cases (lt h x)) [ inl a ↦ rw a (irrefl x) | inr a ↦ rw a a ]

    lower-below : (p l x : Real) → lt p l ≡ false → lt p (if lt x l then x else l) ≡ false
    lower-below p l x e = elim (Bool-cases (lt x l)) [
      | inl a ↦ rw a (elim (Bool-cases (lt p x)) [
        | inl b ↦ absurd (grind (arith, trans p x l b a, e))
        | inr b ↦ b
      ])
      | inr a ↦ rw a e
    ]

    lower_self : (l x : Real) → lt x (if lt x l then x else l) ≡ false
    lower_self l x = elim (Bool-cases (lt x l)) [ inl a ↦ rw a (irrefl x) | inr a ↦ rw a a ]

    above :
        (p q h : Real) (ts : List (Tick Real))
        → lt h p ≡ false
        → lt h q ≡ false
        → (lt (highest num h ts) p ≡ false) × (lt (highest num h ts) (last_price num q ts) ≡ false)
    above p q h [] e f = (e, f)
    above p q h (t ∷ ts) e f =
        above p t.price (if lt h t.price then t.price else h) ts (raise-above p h t.price e)
          (raise_self h t.price)

    below :
        (p q l : Real) (ts : List (Tick Real))
        → lt p l ≡ false
        → lt q l ≡ false
        → (lt p (lowest_price num l ts) ≡ false)
          × (lt (last_price num q ts) (lowest_price num l ts) ≡ false)
    below p q l [] e f = (e, f)
    below p q l (t ∷ ts) e f =
        below p t.price (if lt t.price l then t.price else l) ts (lower-below p l t.price e)
          (lower_self l t.price)

    module _ (numbers : BarNumbers Real) where
      runs-IsRanged :
          (runs : List (Tick Real × List (Tick Real)))
          → All IsRanged (map (summary num numbers) runs)
      runs-IsRanged [] = tt
      runs-IsRanged ((t, ts) ∷ runs) =
          let hi = above t.price t.price t.price ts (irrefl t.price) (irrefl t.price) in
          let lo = below t.price t.price t.price ts (irrefl t.price) (irrefl t.price) in
          ((hi.0, hi.1, lo.0, lo.1), runs-IsRanged runs)

      -- In each bar of any ticks, the flushed one included, neither the open nor the close price is above the
      -- high or below the low, if the order of prices is irreflexive and transitive.
      pub aggregate-IsRanged :
          (c : Config Real) (ticks : List (Tick Real))
          → All IsRanged (aggregate num numbers ticks (new_builder num numbers c))
      aggregate-IsRanged c ticks =
          let (runs, e, f, a) = aggregate-Splits num numbers c ticks in
          subst (All IsRanged) (sym f) (runs-IsRanged runs)
