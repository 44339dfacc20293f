-- ===== src/Live/OrderManager/Agreement.antt =====
-- The two checks of an order: `LiveOrderManager::validate_order` of src/live/live_order_manager.cpp and
-- `OrderManager::validate_order` of src/engine/order_manager.cpp.
use regime_flow.Engine.Order.{Order}
use regime_flow.Base.Double.{Double}
use regime_flow.Result.{ok}
use regime_flow.Base.{arith, ◌↔◌, ◌≡◌, true}
use regime_flow.Engine.OrderManager.Validation.{validate_order, validate_expiry}
use regime_flow.Live.OrderManager.Draft.{is_valid_order}

module _ (num : Double) where
  open num use {Real}

  -- The backtest's order manager accepts an order exactly if the live one does and the order has a date if
  -- it is good till a date.
  pub validate_order-agrees :
      (o : Order Real)
      → (validate_order num o ≡ ok tt)
        ↔ (is_valid_order num o ≡ true) × (validate_expiry num o ≡ ok tt)
  unfolding validate_order is_valid_order
  validate_order-agrees o = (λ h. ground arith, λ h. ground arith)
