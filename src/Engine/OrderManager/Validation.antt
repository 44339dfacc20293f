-- ===== src/Engine/OrderManager/Validation.antt =====
-- `validate_order` and `is_open_status` of src/engine/order_manager.cpp.
use regime_flow.Base.{Bool, true, false, ◌||◌, if◌then◌else◌, is_some, ◌==◌, not, ◌&&◌}
use regime_flow.Base.Double.{Double}
use regime_flow.Result.{Result, ok, Void, fail, ErrorCode}
use regime_flow.Engine.Order.{Order, OrderType, TimeInForce, OrderStatus}

abbrev pub is_gtd : TimeInForce → Bool
is_gtd TimeInForce.gtd = true
is_gtd _ = false

unfoldable pub is_open_status : OrderStatus → Bool
is_open_status OrderStatus.created = true
is_open_status OrderStatus.pending = true
is_open_status OrderStatus.partially_filled = true
is_open_status _ = false

module _ (num : Double) where
  open num use {Real, nil, le}

  -- The tests that depend on the order's type.
  unfoldable pub validate_prices : OrderType → Order Real → Result Void
  validate_prices OrderType.limit o =
      if le o.limit_price nil
      then fail ErrorCode.invalid_argument "Limit price must be positive"
      else ok tt
  validate_prices OrderType.stop o =
      if le o.stop_price nil
      then fail ErrorCode.invalid_argument "Stop price must be positive"
      else ok tt
  validate_prices OrderType.stop_limit o =
      if le o.limit_price nil || le o.stop_price nil
      then fail ErrorCode.invalid_argument "Stop limit requires stop and limit price"
      else ok tt
  validate_prices _ o = ok tt

  unfoldable pub validate_expiry : Order Real → Result Void
  validate_expiry o =
      if is_gtd o.tif && not (is_some o.expire_at)
      then fail ErrorCode.invalid_argument "GTD requires expire_at timestamp"
      else ok tt

  unfoldable pub after_check : Result Void → Result Void → Result Void
  after_check (Result.err e) rest = Result.err e
  after_check (ok _) rest = rest

  unfoldable pub validate_order : Order Real → Result Void
  unfolding validate_prices validate_expiry after_check
  validate_order o =
      if o.symbol == 0
      then fail ErrorCode.invalid_argument "Order symbol not set"
      else if le o.quantity nil
      then fail ErrorCode.invalid_argument "Order quantity must be positive"
      else after_check (validate_prices o.type o) (validate_expiry o)
