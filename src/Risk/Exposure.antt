-- ===== src/Risk/Exposure.antt =====
-- What the overlay of src/risk/risk_limits.cpp says of the portfolio that the order leads to.
use regime_flow.Result.{ok}
use regime_flow.Base.Table.{lookup}
use regime_flow.Engine.Portfolio.Positions.{quantity-book_fill, quantity_of}
use regime_flow.Engine.Portfolio.{Portfolio}
use regime_flow.Base.StringTable.{find, StringTable}
use regime_flow.Engine.Order.{Fill, Order}
use regime_flow.Engine.Portfolio.Updates.{is_void, update_position}
use regime_flow.Risk.Limits.{
  signed_quantity, existing_quantity, reference_price, RegimeRiskOverlayProfile, check_overlay,
  check_profile, check_sizes,
}
use regime_flow.Engine.Order.{OrderSide}
use regime_flow.Base.Double.{Double}
use regime_flow.Base.{
  ◌∙◌, ◌==◌, Option-cases, sym, ℕ, refl, inr, inl, true, arith, ◌≡◌, String, false, some,
}

module _ (num : Double) where
  open num use {Real, nil, add, sub, abs, lt, le, eq}

  -- What a fill of the whole order adds to the position.
  abbrev pub whole_fill : OrderSide → Real → Real
  whole_fill OrderSide.buy quantity = abs quantity
  whole_fill OrderSide.sell quantity = sub nil (abs quantity)

  whole_fill-signed :
      (side : OrderSide) (o : Order Real)
      → o.side ≡ side
      → whole_fill o.side o.quantity ≡ signed_quantity num o
  whole_fill-signed OrderSide.buy o e = rw (e, signed_quantity) refl
  whole_fill-signed OrderSide.sell o e = rw (e, signed_quantity) refl

  sizes-no_more :
      (profile : RegimeRiskOverlayProfile Real) (o : Order Real) (p : Portfolio Real) (price : Real)
      → profile.allow_new_exposure ≡ false
      → check_sizes num profile o p price ≡ ok tt
      → lt
          (abs (existing_quantity num o.symbol p))
          (abs (add (existing_quantity num o.symbol p) (signed_quantity num o)))
        ≡ false
  unfolding check_sizes
  sizes-no_more profile o p price e h = ground (arith, e, h)

  priced :
      (profile : RegimeRiskOverlayProfile Real) (o : Order Real) (p : Portfolio Real)
      → le (reference_price num o) nil ≡ false
      → check_profile num profile o p ≡ ok tt
      → check_sizes num profile o p (reference_price num o) ≡ ok tt
  unfolding check_profile
  priced profile o p e h = ground (arith, e, h)

  existing-quantity_of :
      (symbol : ℕ) (p : Portfolio Real) → existing_quantity num symbol p ≡ quantity_of num symbol p
  existing-quantity_of symbol p = elim (Option-cases (lookup symbol p.positions)) [
    | inl e ↦ rw (e, existing_quantity) refl
    | inr (q, e) ↦ rw (e, existing_quantity) refl
  ]

  quantity_after :
      (f : Fill Real) (symbol : ℕ) (p : Portfolio Real)
      → f.symbol ≡ symbol
      → is_void num f ≡ false
      → quantity_of num symbol (update_position num f p) ≡ add (quantity_of num symbol p) f.quantity
  unfolding update_position
  quantity_after f symbol p s v =
      let same : (f.symbol == symbol) ≡ true = ground (arith, s) in
      rw (v, quantity-book_fill num f symbol p, same) refl

  profile_asked :
      (profiles : StringTable (RegimeRiskOverlayProfile Real))
      (profile : RegimeRiskOverlayProfile Real) (regime : String) (o : Order Real)
      (p : Portfolio Real)
      → find "regime" o.metadata ≡ some regime
      → find regime profiles ≡ some profile
      → check_overlay num profiles o p ≡ check_profile num profile o p
  unfolding check_overlay
  profile_asked profiles profile regime o p r g = rw (r, check_overlay, g) refl

  -- If the overlay for the order's regime, which allows no new exposure, lets an order with a price pass, then
  -- the position is not larger in size once a fill of the whole order is booked.
  pub overlay-no_more :
      (profiles : StringTable (RegimeRiskOverlayProfile Real))
      (profile : RegimeRiskOverlayProfile Real) (regime : String) (o : Order Real) (f : Fill Real)
      (p : Portfolio Real)
      → find "regime" o.metadata ≡ some regime
      → find regime profiles ≡ some profile
      → profile.allow_new_exposure ≡ false
      → le (reference_price num o) nil ≡ false
      → check_overlay num profiles o p ≡ ok tt
      → f.symbol ≡ o.symbol
      → f.quantity ≡ whole_fill o.side o.quantity
      → is_void num f ≡ false
      → lt
          (abs (quantity_of num o.symbol p))
          (abs (quantity_of num o.symbol (update_position num f p)))
        ≡ false
  overlay-no_more profiles profile regime o f p r g e k h s q v =
      let h' : check_profile num profile o p ≡ ok tt =
        sym (profile_asked profiles profile regime o p r g) ∙ h in
      let t = sizes-no_more profile o p (reference_price num o) e (priced profile o p k h') in
      rw
        (
          quantity_after f o.symbol p s v,
          q,
          whole_fill-signed o.side o refl,
          ← existing-quantity_of o.symbol p,
        )
        t
