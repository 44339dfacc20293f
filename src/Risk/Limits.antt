-- ===== src/Risk/Limits.antt =====
-- The limits of include/regimeflow/risk/risk_limits.h and `RegimeRiskOverlayLimit` of src/risk/risk_limits.cpp.
-- A limit gives its answer and itself, since that on the drawdown remembers the highest equity that it has seen.
use regime_flow.Engine.Portfolio.Updates.{get_position}
use regime_flow.Engine.Portfolio.{equity, Portfolio, net_exposure, gross_exposure}
use regime_flow.Base.Double.{Double}
use regime_flow.Base.StringTable.{find, StringTable}
use regime_flow.Base.{not, ◌&&◌, if◌then◌else◌, ℕ, String, Bool, false, true, some, none}
use regime_flow.Result.{Result, Void, ok, fail, ErrorCode}
use regime_flow.Engine.Order.{Order, OrderType, OrderSide, TimeInForce}

pub record RegimeRiskOverlayProfile (R : Type 0) : Type 0 where
  pub allow_new_exposure : Bool
  pub max_order_notional : R
  pub max_position_pct : R
  pub allow_market_orders : Bool
  pub allow_aggressive_tif : Bool

-- The classes behind `RiskLimit`, with their fields; `max_drawdown` has `peak_` first.
pub data RiskLimit (R : Type 0) : Type 0 where
  max_notional : R → RiskLimit R
  max_position : R → RiskLimit R
  max_position_pct : R → RiskLimit R
  max_drawdown : R → R → RiskLimit R
  max_gross_exposure : R → RiskLimit R
  max_leverage : R → RiskLimit R
  max_net_exposure : R → RiskLimit R
  regime_risk_overlay : StringTable (RegimeRiskOverlayProfile R) → RiskLimit R

abbrev pub blocked : String → Result Void
blocked message = fail ErrorCode.out_of_range message

abbrev pub invalid : String → Result Void
invalid message = fail ErrorCode.invalid_argument message

abbrev pub is_limit : OrderType → Bool
is_limit OrderType.limit = true
is_limit _ = false

abbrev pub is_market_style : OrderType → Bool
is_market_style OrderType.market = true
is_market_style OrderType.market_on_open = true
is_market_style OrderType.market_on_close = true
is_market_style _ = false

abbrev pub is_aggressive : TimeInForce → Bool
is_aggressive TimeInForce.ioc = true
is_aggressive TimeInForce.fok = true
is_aggressive _ = false

module _ (num : Double) where
  open num use {Real, nil, add, sub, mul, div, abs, lt, le}

  abbrev pub existing_quantity : ℕ → Portfolio Real → Real
  existing_quantity symbol p = elim (get_position symbol p) [ none ↦ nil | some q ↦ q.quantity ]

  unfoldable pub check_notional : Real → Order Real → Portfolio Real → Result Void
  unfolding equity
  check_notional limit o p =
      let price = if lt nil o.limit_price then o.limit_price else nil in
      let order_notional = mul (abs o.quantity) price in
      if le o.limit_price nil && is_limit o.type
      then invalid "Limit price must be set for notional checks"
      else if le price nil
      then ok tt
      else if lt limit order_notional
      then blocked "Order exceeds max notional limit"
      else if lt (equity num p) order_notional
      then blocked "Order exceeds portfolio equity"
      else ok tt

  unfoldable pub check_position : Real → Order Real → Portfolio Real → Result Void
  check_position limit o p =
      if lt limit (abs (add (existing_quantity o.symbol p) o.quantity))
      then blocked "Order exceeds max position limit"
      else ok tt

  unfoldable pub check_position_pct : Real → Order Real → Portfolio Real → Result Void
  unfolding equity
  check_position_pct limit o p =
      let projected = add (existing_quantity o.symbol p) o.quantity in
      if le (equity num p) nil
      then ok tt
      else if le o.limit_price nil && is_limit o.type
      then invalid "Limit price must be set for pct checks"
      else if le o.limit_price nil
      then ok tt
      else if lt limit (div (abs (mul projected o.limit_price)) (equity num p))
      then blocked "Order exceeds max position pct limit"
      else ok tt

  -- The answer and the new `peak_`; `validate_portfolio` is the same.
  unfoldable pub check_drawdown : Real → Real → Portfolio Real → Result Void × Real
  unfolding equity
  check_drawdown peak limit p =
      let value = equity num p in
      let peak' = if lt peak value then value else peak in
      if le value nil then (ok tt, peak) else (
        if lt limit (div (sub peak' value) peak')
            then blocked "Max drawdown limit exceeded"
            else ok tt,
        peak',
      )

  unfoldable pub check_gross : Real → Order Real → Portfolio Real → Result Void
  unfolding gross_exposure
  check_gross limit o p =
      let price = if lt nil o.limit_price then o.limit_price else nil in
      if le o.limit_price nil && is_limit o.type
      then invalid "Limit price must be set for exposure checks"
      else if le price nil
      then ok tt
      else if lt limit (add (gross_exposure num p) (mul (abs o.quantity) price))
      then blocked "Order exceeds max gross exposure limit"
      else ok tt

  unfoldable pub check_leverage : Real → Order Real → Portfolio Real → Result Void
  unfolding gross_exposure equity
  check_leverage limit o p =
      let price = if lt nil o.limit_price then o.limit_price else nil in
      let projected = add (gross_exposure num p) (mul (abs o.quantity) price) in
      if le o.limit_price nil && is_limit o.type
      then invalid "Limit price must be set for leverage checks"
      else if le price nil
      then ok tt
      else if le (equity num p) nil
      then ok tt
      else if lt limit (div projected (equity num p))
      then blocked "Order exceeds max leverage limit"
      else ok tt

  unfoldable pub check_net : Real → Order Real → Portfolio Real → Result Void
  unfolding net_exposure
  check_net limit o p =
      if le o.limit_price nil && is_limit o.type
      then invalid "Limit price must be set for exposure checks"
      else if le o.limit_price nil
      then ok tt
      else if lt limit (abs (add (net_exposure num p) (mul o.quantity o.limit_price)))
      then blocked "Order exceeds max net exposure limit"
      else ok tt

  -- `-qty` is written as a difference from zero.
  abbrev pub signed_quantity : Order Real → Real
  signed_quantity o = elim o.side [
    | OrderSide.buy ↦ abs o.quantity
    | OrderSide.sell ↦ sub nil (abs o.quantity)
  ]

  unfoldable pub reference_price : Order Real → Real
  reference_price o =
      if lt nil o.limit_price
      then o.limit_price
      else if lt nil o.stop_price
      then o.stop_price
      else nil

  abbrev needs_price : OrderType → Bool
  needs_price OrderType.limit = true
  needs_price OrderType.stop_limit = true
  needs_price _ = false

  -- The checks of the overlay that look at sizes, at this price.
  unfoldable pub check_sizes :
      RegimeRiskOverlayProfile Real → Order Real → Portfolio Real → Real → Result Void
  unfolding equity
  check_sizes profile o p price =
      let existing = existing_quantity o.symbol p in
      let projected = add existing (signed_quantity o) in
      if not profile.allow_new_exposure && lt (abs existing) (abs projected)
      then blocked "Regime risk overlay blocks new exposure"
      else if lt nil profile.max_order_notional
          && lt profile.max_order_notional (mul (abs o.quantity) price)
      then blocked "Order exceeds regime max notional"
      else if (lt nil profile.max_position_pct && lt nil (equity num p))
          && lt profile.max_position_pct (div (abs (mul projected price)) (equity num p))
      then blocked "Order exceeds regime max position pct"
      else ok tt

  unfoldable pub check_profile :
      RegimeRiskOverlayProfile Real → Order Real → Portfolio Real → Result Void
  unfolding reference_price check_sizes
  check_profile profile o p =
      let price = reference_price o in
      if not profile.allow_market_orders && is_market_style o.type
      then blocked "Regime risk overlay blocks market orders"
      else if not profile.allow_aggressive_tif && is_aggressive o.tif
      then blocked "Regime risk overlay blocks aggressive time-in-force"
      else if le price nil
      then (if needs_price o.type
          then invalid "Limit price must be set for regime risk overlay"
          else ok tt)
      else check_sizes profile o p price

  unfoldable pub check_overlay :
      StringTable (RegimeRiskOverlayProfile Real) → Order Real → Portfolio Real → Result Void
  unfolding check_profile
  check_overlay profiles o p = elim (find "regime" o.metadata) [
    | none ↦ ok tt
    | some regime ↦ elim (find regime profiles) [
      | none ↦ ok tt
      | some profile ↦ check_profile profile o p
    ]
  ]
