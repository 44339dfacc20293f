-- ===== src/Risk/Manager.antt =====
-- `RiskManager` of src/risk/risk_limits.cpp. A limit that is not asked stays as it is.
use regime_flow.Engine.Portfolio.{Portfolio}
use regime_flow.Engine.Order.{Order}
use regime_flow.Base.StringTable.{find, put, StringTable}
use regime_flow.Base.Double.{Double}
use regime_flow.Base.{String, ◌++◌, List, some, none, ◌∷◌, []}
use regime_flow.Result.{Result, Void, ok, err}
use regime_flow.Risk.Limits.{
  check_overlay, check_net, check_leverage, check_gross, check_drawdown, check_position_pct,
  check_position, check_notional, RiskLimit,
}

pub record RiskManager (R : Type 0) : Type 0 where
  pub limits : List (RiskLimit R)
  pub regime_limits : StringTable (List (RiskLimit R))

-- What follows an answer: an error is returned at once, with the state that it leaves.
abbrev pub unless_err : {S : Type 0} → Result Void → Result Void × S → S → Result Void × S
unless_err (ok _) next left = next
unless_err (err e) next left = (err e, left)

module _ (num : Double) where
  open num use {Real}

  -- `limit->validate(order, portfolio)`
  unfoldable pub ask_limit :
      Order Real → Portfolio Real → RiskLimit Real → Result Void × RiskLimit Real
  unfolding check_notional check_position check_position_pct check_drawdown check_gross
      check_leverage check_net check_overlay
  ask_limit o p (RiskLimit.max_notional limit) =
      (check_notional num limit o p, RiskLimit.max_notional limit)
  ask_limit o p (RiskLimit.max_position limit) =
      (check_position num limit o p, RiskLimit.max_position limit)
  ask_limit o p (RiskLimit.max_position_pct limit) =
      (check_position_pct num limit o p, RiskLimit.max_position_pct limit)
  ask_limit o p (RiskLimit.max_drawdown peak limit) =
      let (answer, peak') = check_drawdown num peak limit p in
      (answer, RiskLimit.max_drawdown peak' limit)
  ask_limit o p (RiskLimit.max_gross_exposure limit) =
      (check_gross num limit o p, RiskLimit.max_gross_exposure limit)
  ask_limit o p (RiskLimit.max_leverage limit) =
      (check_leverage num limit o p, RiskLimit.max_leverage limit)
  ask_limit o p (RiskLimit.max_net_exposure limit) =
      (check_net num limit o p, RiskLimit.max_net_exposure limit)
  ask_limit o p (RiskLimit.regime_risk_overlay profiles) =
      (check_overlay num profiles o p, RiskLimit.regime_risk_overlay profiles)

  -- A loop over limits, which the first error ends.
  unfoldable pub ask_all :
      Order Real → Portfolio Real → List (RiskLimit Real) → Result Void × List (RiskLimit Real)
  ask_all o p [] = (ok tt, [])
  ask_all o p (l ∷ ls) =
      let (answer, l') = ask_limit o p l in
      let (rest, ls') = ask_all o p ls in unless_err answer (rest, l' ∷ ls') (l' ∷ ls)

  abbrev pub add_limit : RiskLimit Real → RiskManager Real → RiskManager Real
  add_limit l m = record m { limits = m.limits ++ l ∷ [] }

  abbrev pub set_regime_limits :
      StringTable (List (RiskLimit Real)) → RiskManager Real → RiskManager Real
  set_regime_limits regime_limits m = record m { regime_limits = regime_limits }

  -- The loop over the limits of every order.
  unfoldable pub ask_general :
      Order Real → Portfolio Real → RiskManager Real → Result Void × RiskManager Real
  unfolding ask_all
  ask_general o p m =
      let (answer, limits) = ask_all o p m.limits in (answer, record m { limits = limits })

  -- After the limits of the regime, of which `put` stores the state.
  unfoldable pub ask_regime :
      String
      → Order Real
      → Portfolio Real
      → List (RiskLimit Real)
      → RiskManager Real
      → Result Void × RiskManager Real
  unfolding ask_all ask_general
  ask_regime regime o p ls m =
      let (answer, ls') = ask_all o p ls in
      let m' = record m { regime_limits = put regime ls' m.regime_limits } in
      unless_err answer (ask_general o p m') m'

  unfoldable pub validate :
      Order Real → Portfolio Real → RiskManager Real → Result Void × RiskManager Real
  unfolding ask_general ask_regime
  validate o p m = elim (find "risk_exit" o.metadata) [
    | some _ ↦ (ok tt, m)
    | none ↦ elim (find "regime" o.metadata) [
      | none ↦ ask_general o p m
      | some regime ↦ elim (find regime m.regime_limits) [
        | none ↦ ask_general o p m
        | some ls ↦ ask_regime regime o p ls m
      ]
    ]
  ]
