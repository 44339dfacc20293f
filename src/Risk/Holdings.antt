-- ===== src/Risk/Holdings.antt =====
-- The checks of a whole portfolio, `validate_portfolio` of include/regimeflow/risk/risk_limits.h and of
-- `RiskManager` in src/risk/risk_limits.cpp.
use regime_flow.Engine.Portfolio.Updates.{get_all_positions}
use regime_flow.Base.StringTable.{StringTable}
use regime_flow.Risk.Manager.{RiskManager, unless_err}
use regime_flow.Engine.Portfolio.{Position, equity, net_exposure, gross_exposure, Portfolio}
use regime_flow.Base.Double.{Double}
use regime_flow.Base.{◌&&◌, not, if◌then◌else◌, ◌||◌, List, Bool, false, ◌∷◌, []}
use regime_flow.Result.{Result, Void, ok}
use regime_flow.Risk.Limits.{blocked, check_drawdown, RiskLimit}

abbrev pub any_of : {A : Type 0} → (A → Bool) → List A → Bool
any_of test [] = false
any_of test (x ∷ xs) = test x || any_of test xs

module _ (num : Double) where
  open num use {Real, nil, mul, div, abs, lt, le}

  unfoldable pub check_positions : Real → Portfolio Real → Result Void
  check_positions limit p =
      if any_of (λ (q : Position Real). lt limit (abs q.quantity)) (get_all_positions p)
      then blocked "Position exceeds max position limit"
      else ok tt

  -- A position without a price is passed over.
  unfoldable pub check_shares : Real → Portfolio Real → Result Void
  unfolding equity
  check_shares limit p =
      let exceeds = λ (q : Position Real).
        not (le q.current_price nil)
        && lt limit (div (abs (mul q.quantity q.current_price)) (equity num p)) in
      if le (equity num p) nil
      then ok tt
      else if any_of exceeds (get_all_positions p)
      then blocked "Position exceeds max position pct limit"
      else ok tt

  unfoldable pub check_gross_held : Real → Portfolio Real → Result Void
  unfolding gross_exposure
  check_gross_held limit p =
      if lt limit (gross_exposure num p) then blocked "Max gross exposure limit exceeded" else ok tt

  unfoldable pub check_leverage_held : Real → Portfolio Real → Result Void
  unfolding equity gross_exposure
  check_leverage_held limit p =
      if le (equity num p) nil
      then ok tt
      else if lt limit (div (gross_exposure num p) (equity num p))
      then blocked "Max leverage limit exceeded"
      else ok tt

  unfoldable pub check_net_held : Real → Portfolio Real → Result Void
  unfolding net_exposure
  check_net_held limit p =
      if lt limit (abs (net_exposure num p))
      then blocked "Max net exposure limit exceeded"
      else ok tt

  -- `limit->validate_portfolio(portfolio)`; the limits on an order alone let every portfolio pass.
  unfoldable pub ask_held : Portfolio Real → RiskLimit Real → Result Void × RiskLimit Real
  unfolding check_positions check_shares check_drawdown check_gross_held check_leverage_held
      check_net_held
  ask_held p (RiskLimit.max_position limit) =
      (check_positions limit p, RiskLimit.max_position limit)
  ask_held p (RiskLimit.max_position_pct limit) =
      (check_shares limit p, RiskLimit.max_position_pct limit)
  ask_held p (RiskLimit.max_drawdown peak limit) =
      let (answer, peak') = check_drawdown num peak limit p in
      (answer, RiskLimit.max_drawdown peak' limit)
  ask_held p (RiskLimit.max_gross_exposure limit) =
      (check_gross_held limit p, RiskLimit.max_gross_exposure limit)
  ask_held p (RiskLimit.max_leverage limit) =
      (check_leverage_held limit p, RiskLimit.max_leverage limit)
  ask_held p (RiskLimit.max_net_exposure limit) =
      (check_net_held limit p, RiskLimit.max_net_exposure limit)
  ask_held p limit = (ok tt, limit)

  unfoldable pub ask_all_held :
      Portfolio Real → List (RiskLimit Real) → Result Void × List (RiskLimit Real)
  unfolding ask_held
  ask_all_held p [] = (ok tt, [])
  ask_all_held p (l ∷ ls) =
      let (answer, l') = ask_held p l in
      let (rest, ls') = ask_all_held p ls in unless_err answer (rest, l' ∷ ls') (l' ∷ ls)

  -- The outer loop, over the regimes.
  unfoldable pub ask_regimes_held :
      Portfolio Real
      → StringTable (List (RiskLimit Real))
      → Result Void × StringTable (List (RiskLimit Real))
  unfolding ask_all_held
  ask_regimes_held p [] = (ok tt, [])
  ask_regimes_held p ((regime, ls) ∷ regimes) =
      let (answer, ls') = ask_all_held p ls in
      let (rest, regimes') = ask_regimes_held p regimes in
      unless_err answer (rest, (regime, ls') ∷ regimes') ((regime, ls') ∷ regimes)

  unfoldable pub validate_portfolio :
      Portfolio Real → RiskManager Real → Result Void × RiskManager Real
  unfolding ask_regimes_held ask_all_held
  validate_portfolio p m =
      let (answer, regimes) = ask_regimes_held p m.regime_limits in
      let (rest, limits) = ask_all_held p m.limits in
      let m' = record m { regime_limits = regimes } in
      unless_err answer (rest, record m' { limits = limits }) m'
