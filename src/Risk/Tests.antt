-- ===== src/Risk/Tests.antt =====
-- Checks of src/risk/risk_limits.cpp on a small portfolio.
use regime_flow.Risk.Holdings.{validate_portfolio}
use regime_flow.Risk.Exposure.{overlay-no_more}
use regime_flow.Engine.Portfolio.Positions.{quantity_of}
use regime_flow.Engine.Portfolio.Updates.{update_position}
use regime_flow.Risk.Decision.{validate-first_error, regime_limits_of, answers_of, first_error}
use regime_flow.Base.Table.{values, lookup}
use regime_flow.Base.Double.{whole}
use regime_flow.Risk.Manager.{validate, RiskManager}
use regime_flow.Engine.Portfolio.{new_portfolio, Portfolio}
use regime_flow.Base.StringTable.{find, StringTable}
use regime_flow.Base.{◌++◌, is_some, if◌then◌else◌, ◌≡◌, refl, false, true, ◌∷◌, []}
use regime_flow.Base.Int.{ltb_ℤ, quot_ℤ, ◌*ℤ◌, ◌-ℤ◌, ◌+ℤ◌, ℤ, pos, negsuc}
use regime_flow.Result.{ok}
use regime_flow.Risk.Limits.{
  blocked, check_overlay, check_position, RegimeRiskOverlayProfile, RiskLimit,
}
use regime_flow.Engine.Order.{limit_order, Fill, Order, OrderSide, OrderType}

abbrev closing_only : RegimeRiskOverlayProfile ℤ
closing_only = record {
  allow_new_exposure = false;
  max_order_notional = pos 0;
  max_position_pct = pos 0;
  allow_market_orders = true;
  allow_aggressive_tif = true;
}

abbrev overlay : StringTable (RegimeRiskOverlayProfile ℤ)
overlay = ("crisis", closing_only) ∷ []

-- Ten are held at the price 5.
abbrev ten_held : Portfolio ℤ
ten_held = record (new_portfolio whole (pos 1000) "USD") {
  positions =
      (
        1,
        record {
          symbol = 1;
          quantity = pos 10;
          avg_cost = pos 5;
          current_price = pos 5;
          last_update = pos 0;
        },
      )
      ∷ [];
}

abbrev sell_four : Order ℤ
sell_four = record (limit_order whole 1 OrderSide.sell (pos 4) (pos 6)) {
  metadata = ("regime", "crisis") ∷ [];
}

abbrev buy_four : Order ℤ
buy_four = record sell_four { side = OrderSide.buy }

abbrev four_sold : Fill ℤ
four_sold = record {
  id = 1;
  order_id = 1;
  parent_order_id = 0;
  symbol = 1;
  quantity = negsuc 3;
  price = pos 6;
  timestamp = pos 0;
  commission = pos 0;
  transaction_cost = pos 0;
  slippage = pos 0;
  is_maker = false;
  venue = "";
}

abbrev a_manager : RiskManager ℤ
a_manager = record {
  limits = RiskLimit.max_position (pos 12) ∷ RiskLimit.regime_risk_overlay overlay ∷ [];
  regime_limits = [];
}

-- A sale of four out of ten is projected as fourteen, and refused.
sale_refused :
    check_position whole (pos 12) sell_four ten_held ≡ blocked "Order exceeds max position limit"
unfolding check_position limit_order ◌+ℤ◌ lookup new_portfolio
sale_refused = refl

-- A market order has no reference price, and is bought in a regime that allows no new exposure.
market_order_passes :
    check_overlay whole overlay
      (record buy_four { type = OrderType.market; limit_price = pos 0 })
      ten_held
    ≡ ok tt
unfolding check_overlay limit_order find
market_order_passes = refl

validate-first_error_example : (validate whole sell_four ten_held a_manager).0 ≡ (
    if is_some (find "risk_exit" sell_four.metadata)
    then ok tt
    else first_error (
        answers_of whole sell_four ten_held (regime_limits_of whole sell_four a_manager)
        ++ answers_of whole sell_four ten_held a_manager.limits))
validate-first_error_example = validate-first_error whole sell_four ten_held a_manager

overlay-no_more_example :
    (let after = update_position whole four_sold ten_held in
      ltb_ℤ (whole.abs (quantity_of whole 1 ten_held)) (whole.abs (quantity_of whole 1 after)))
    ≡ false
unfolding check_overlay limit_order find ◌+ℤ◌ ◌-ℤ◌ ◌*ℤ◌ lookup new_portfolio quot_ℤ
overlay-no_more_example =
    overlay-no_more whole overlay closing_only "crisis" sell_four four_sold ten_held refl refl refl
      refl refl refl refl refl

-- Ten are more than eight.
ten_too_many :
    (validate_portfolio whole ten_held
      (record { limits = RiskLimit.max_position (pos 8) ∷ []; regime_limits = [] })).0
    ≡ blocked "Position exceeds max position limit"
unfolding validate_portfolio values
ten_too_many = refl
