-- ===== src/Engine/OrderManager/Acceptance.antt =====
-- Which orders `validate_order` of src/engine/order_manager.cpp accepts.
use regime_flow.Base.Int.{ℤ}
use regime_flow.Engine.OrderManager.Validation.{validate_order}
use regime_flow.Engine.Order.{Order, OrderType, TimeInForce}
use regime_flow.Base.Double.{Double}
use regime_flow.Result.{ok}
use regime_flow.Base.{arith, ◌⊎◌, ◌↔◌, ◌≢◌, ◌≡◌, Option, true, false, none}

module _ (num : Double) where
  open num use {Real, nil, lt, le, eq}

  -- A NaN is the double that is not equal to itself.
  abbrev pub IsPositiveOrNan : Real → Type 0
  IsPositiveOrNan x = (lt nil x ≡ true) ⊎ (eq x x ≡ false)

  -- The prices that an order's type needs.
  abbrev pub HasPrices : OrderType → Order Real → Type 0
  HasPrices OrderType.limit o = IsPositiveOrNan o.limit_price
  HasPrices OrderType.stop o = IsPositiveOrNan o.stop_price
  HasPrices OrderType.stop_limit o = IsPositiveOrNan o.limit_price × IsPositiveOrNan o.stop_price
  HasPrices _ o = Unit

  -- A good-till-date order has a date.
  abbrev pub HasDate : TimeInForce → Option ℤ → Type 0
  HasDate TimeInForce.gtd none = ⊥
  HasDate _ _ = Unit

  pub record IsAcceptable (o : Order Real) : Type 0 where
    pub symbol_set : o.symbol ≢ 0
    pub quantity_given : IsPositiveOrNan o.quantity
    pub prices_given : HasPrices o.type o
    pub dated : HasDate o.tif o.expire_at

  -- If a double is not at most zero exactly when it is above zero or a NaN, `validate_order` accepts exactly
  -- the orders whose symbol is set, whose quantity and the prices that the type needs are each above zero or
  -- a NaN, and that have a date if they are good till a date.
  pub validate_order-ok_iff :
      ((x : Real) → (le x nil ≡ false) ↔ IsPositiveOrNan x)
      → (o : Order Real) → (validate_order num o ≡ ok tt) ↔ IsAcceptable o
  unfolding validate_order
  validate_order-ok_iff ieee o =
      let q = ieee o.quantity in
      let l = ieee o.limit_price in
      let s = ieee o.stop_price in (λ h. ground (arith, q, l, s), λ h. ground (arith, q, l, s))
