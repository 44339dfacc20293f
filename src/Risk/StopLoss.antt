-- ===== src/Risk/StopLoss.antt =====
-- src/risk/stop_loss.cpp and include/regimeflow/risk/stop_loss.h.
--
-- Doubles are in `num`, and `cast` makes one of an integer. The order manager is that of Engine.OrderManager,
-- whose readings of the time `clock` gives; an `int64_t` is an integer that stays in its range.
pub mod Price
pub mod Exits
pub mod Once
mod Tests
use regime_flow.Base.{not, ◌&&◌, value_or, ◌||◌, if◌then◌else◌, List, Bool, false, []}
use regime_flow.Base.Double.{Double}
use regime_flow.Base.Int.{ℤ, pos}
use regime_flow.Base.Table.{Table, lookup, insert}
use regime_flow.Engine.Portfolio.{Position, larger, smaller}

pub record StopLossConfig (R : Type 0) : Type 0 where
  pub enable_fixed : Bool
  pub enable_trailing : Bool
  pub enable_atr : Bool
  pub enable_time : Bool
  pub stop_loss_pct : R
  pub trailing_stop_pct : R
  pub atr_window : ℤ
  pub atr_multiplier : R
  pub max_holding_seconds : ℤ

pub record StopState (R : Type 0) : Type 0 where
  pub last_qty : R
  pub entry_price : R
  pub entry_time : ℤ
  pub highest : R
  pub lowest : R
  pub last_atr : R
  pub prev_close : R
  pub true_ranges : List R
  pub exit_requested : Bool

pub record StopLossManager (R : Type 0) : Type 0 where
  pub config : StopLossConfig R
  pub states : Table (StopState R)

abbrev pub configure : {R : Type 0} → StopLossConfig R → StopLossManager R → StopLossManager R
configure config m = record m { config = config }

module _ (num : Double) where
  open num use {Real, nil, one, add, sub, mul, abs, lt, le, eq}

  -- `StopState{}`
  unfoldable pub blank_state : StopState Real
  blank_state = record {
    last_qty = nil;
    entry_price = nil;
    entry_time = pos 0;
    highest = nil;
    lowest = nil;
    last_atr = nil;
    prev_close = nil;
    true_ranges = [];
    exit_requested = false;
  }

  -- What `on_position_update` makes of the state of the position's symbol.
  unfoldable pub position_state : Position Real → StopState Real → StopState Real
  unfolding blank_state
  position_state p s =
      let qty = p.quantity in
      let new_direction =
        eq s.last_qty nil
        || (lt nil s.last_qty && lt qty nil)
        || (lt s.last_qty nil && lt nil qty) in
      let increased = not new_direction && lt (abs s.last_qty) (abs qty) in
      if eq qty nil
      then blank_state
      else if new_direction || (s.exit_requested && increased)
      then record s {
        last_qty = qty;
        entry_price = p.avg_cost;
        entry_time = p.last_update;
        highest = p.current_price;
        lowest = p.current_price;
        exit_requested = false;
        prev_close = p.current_price;
        true_ranges = [];
      }
      else record s {
        last_qty = qty;
        entry_price = p.avg_cost;
        highest = larger num s.highest p.current_price;
        lowest = smaller num s.lowest p.current_price;
      }

  unfoldable pub on_position_update : Position Real → StopLossManager Real → StopLossManager Real
  unfolding position_state blank_state
  on_position_update p m = record m {
    states =
        insert p.symbol (position_state p (value_or (lookup p.symbol m.states) blank_state))
          m.states;
  }
