-- ===== src/Risk/StopLoss/Price.antt =====
-- What a price or a bar does to the state of its symbol (src/risk/stop_loss.cpp).
use regime_flow.Base.{
  fold, is_empty, drop, length, not, ◌||◌, ◌++◌, ◌&&◌, if◌then◌else◌, ℕ, Bool, true, some, none,
  ◌∷◌, [],
}
use regime_flow.Base.Double.{Double}
use regime_flow.Base.Int.{ℤ, pos, leb_ℤ, ltb_ℤ, ◌-ℤ◌, ◌*ℤ◌}
use regime_flow.Base.Table.{lookup, insert}
use regime_flow.Data.Bars.{Bar, Tick}
use regime_flow.Engine.Order.{Order, OrderSide, market_order}
use regime_flow.Engine.OrderManager.State.{Manager}
use regime_flow.Engine.OrderManager.Operations.{submit_order}
use regime_flow.Engine.Portfolio.{larger, smaller}
use regime_flow.Risk.StopLoss.{StopLossConfig, StopState, StopLossManager}

module _ (num : Double) where
  open num use {Real, nil, one, add, sub, mul, abs, lt, le, eq}

  -- `(is_long && price <= stop) || (!is_long && price >= stop)`
  unfoldable pub is_hit : Bool → Real → Real → Bool
  is_hit is_long price stop = (is_long && le price stop) || (not is_long && le stop price)

  -- A stop at a part `pct` away from `base`, on the side where the position loses.
  unfoldable pub stop_at : Bool → Real → Real → Real
  stop_at is_long base pct = if is_long then mul base (sub one pct) else mul base (add one pct)

  -- Whether one of the four kinds of stop is reached.
  unfoldable pub is_triggered : StopLossConfig Real → StopState Real → Real → ℤ → Bool
  unfolding is_hit stop_at
  is_triggered c s price ts =
      let is_long = lt nil s.last_qty in
      let away = mul s.last_atr c.atr_multiplier in
      (c.enable_fixed
        && (lt nil s.entry_price
            && is_hit is_long price (stop_at is_long s.entry_price c.stop_loss_pct)))
      || (c.enable_trailing
          && (lt nil price
              && is_hit is_long price
                  (stop_at is_long (if is_long then s.highest else s.lowest) c.trailing_stop_pct)))
      || (c.enable_atr
          && (lt nil s.entry_price
              && (lt nil s.last_atr
                  && is_hit is_long price
                      (if is_long then sub s.entry_price away else add s.entry_price away))))
      || (c.enable_time
          && (ltb_ℤ (pos 0) c.max_holding_seconds
              && leb_ℤ (c.max_holding_seconds *ℤ pos 1000000) (ts -ℤ s.entry_time)))

  unfoldable pub exit_order : ℕ → ℤ → StopState Real → Order Real
  unfolding market_order
  exit_order symbol ts s =
      record (market_order num symbol (if lt nil s.last_qty then OrderSide.sell else OrderSide.buy)
        (abs s.last_qty)) { metadata = ("risk_exit", "1") ∷ []; created_at = ts; updated_at = ts }

  -- The state with the new extremes, when there is a position.
  unfoldable pub see_price : Real → StopState Real → StopState Real
  see_price price s =
      if lt nil price
      then record s { highest = larger num s.highest price; lowest = smaller num s.lowest price }
      else s

module _ (num : Double) (cast : ℤ → num.Real) where
  open num use {Real, nil, one, add, sub, mul, div, abs, lt, le, eq}

  -- `update_atr`, for a symbol that has a state.
  unfoldable pub atr_state : StopLossConfig Real → Bar Real → StopState Real → StopState Real
  atr_state c bar s =
      let spread = sub bar.high bar.low in
      let tr =
        if lt nil s.prev_close
        then larger num (larger num spread (abs (sub bar.high s.prev_close)))
            (abs (sub bar.low s.prev_close))
        else spread in
      let longer = s.true_ranges ++ tr ∷ [] in
      let ranges = if ltb_ℤ c.atr_window (pos (length longer)) then drop 1 longer else longer in
      record s {
        prev_close = bar.close;
        true_ranges = ranges;
        last_atr =
            if is_empty ranges then nil else div (fold add nil ranges) (cast (pos (length ranges)));
      }

  unfoldable pub update_atr : Bar Real → StopLossManager Real → StopLossManager Real
  unfolding atr_state
  update_atr bar m = elim (lookup bar.symbol m.states) [
    | none ↦ m
    | some s ↦ record m { states = insert bar.symbol (atr_state m.config bar s) m.states }
  ]

module _ (num : Double) (clock : ℕ → ℤ) where
  open num use {Real, nil, eq}

  -- `maybe_exit`, for a symbol with state `s`.
  unfoldable pub exit_with :
      ℕ
      → Real
      → ℤ
      → StopState Real
      → StopLossManager Real
      → Manager Real
      → StopLossManager Real × Manager Real
  unfolding is_triggered exit_order
  exit_with symbol price ts s m orders =
      if s.exit_requested || eq s.last_qty nil
      then (m, orders)
      else if is_triggered num m.config s price ts
      then (
        record m { states = insert symbol (record s { exit_requested = true }) m.states },
        (submit_order num clock (exit_order num symbol ts s) orders).1,
      )
      else (m, orders)

  unfoldable pub maybe_exit :
      ℕ → Real → ℤ → StopLossManager Real → Manager Real → StopLossManager Real × Manager Real
  unfolding exit_with
  maybe_exit symbol price ts m orders = elim (lookup symbol m.states) [
    | none ↦ (m, orders)
    | some s ↦ exit_with symbol price ts s m orders
  ]

  unfoldable pub update_from_price :
      ℕ → Real → ℤ → StopLossManager Real → Manager Real → StopLossManager Real × Manager Real
  unfolding see_price maybe_exit
  update_from_price symbol price ts m orders = elim (lookup symbol m.states) [
    | none ↦ (m, orders)
    | some s ↦
        if eq s.last_qty nil
        then (m, orders)
        else maybe_exit symbol price ts
            (record m { states = insert symbol (see_price num price s) m.states }) orders
  ]

  unfoldable pub on_tick :
      Tick Real → StopLossManager Real → Manager Real → StopLossManager Real × Manager Real
  unfolding update_from_price
  on_tick tick m orders = update_from_price tick.symbol tick.price tick.timestamp m orders

module _ (num : Double) (cast : ℤ → num.Real) (clock : ℕ → ℤ) where
  open num use {Real}

  unfoldable pub on_bar :
      Bar Real → StopLossManager Real → Manager Real → StopLossManager Real × Manager Real
  unfolding update_atr update_from_price
  on_bar bar m orders =
      update_from_price num clock bar.symbol bar.close bar.timestamp (update_atr num cast bar m)
        orders
