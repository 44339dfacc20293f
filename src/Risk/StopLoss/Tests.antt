-- ===== src/Risk/StopLoss/Tests.antt =====
-- Runs of the stops (src/risk/stop_loss.cpp), in whole numbers.
use regime_flow.Engine.OrderManager.Validation.{validate_order}
use regime_flow.Engine.OrderManager.State.{notify_orders}
use regime_flow.Risk.StopLoss.Price.{on_tick}
use regime_flow.Base.{◌≡◌, map, ◌*◌, List, ℕ, refl, false, true, none, ◌∷◌, []}
use regime_flow.Base.Double.{whole}
use regime_flow.Base.Int.{◌+ℤ◌, ◌-ℤ◌, ◌*ℤ◌, ℤ, pos}
use regime_flow.Base.Table.{lookup, insert}
use regime_flow.Engine.Order.{Order, OrderSide}
use regime_flow.Engine.OrderManager.State.{Manager}
use regime_flow.Engine.OrderManager.Operations.{submit_order}
use regime_flow.Engine.Portfolio.{Portfolio, Position, new_portfolio}
use regime_flow.Risk.Limits.{RiskLimit}
use regime_flow.Risk.Manager.{RiskManager}
use regime_flow.Risk.StopLoss.{StopLossConfig, StopLossManager, on_position_update}
use regime_flow.Risk.StopLoss.Once.{Update, observe_all, Exited, observe_all-Exited}

-- A stop at the entry price, and no other.
abbrev at_entry : StopLossConfig ℤ
at_entry = record {
  enable_fixed = true;
  enable_trailing = false;
  enable_atr = false;
  enable_time = false;
  stop_loss_pct = pos 0;
  trailing_stop_pct = pos 0;
  atr_window = pos 14;
  atr_multiplier = pos 2;
  max_holding_seconds = pos 0;
}

abbrev ten_long : Position ℤ
ten_long = record {
  symbol = 7;
  quantity = pos 10;
  avg_cost = pos 100;
  current_price = pos 100;
  last_update = pos 0;
}

abbrev stops : StopLossManager ℤ
unfolding on_position_update insert lookup
stops = on_position_update whole ten_long (record { config = at_entry; states = [] })

abbrev no_orders : Manager ℤ
no_orders = record {
  orders = [];
  fills = [];
  order_callbacks = [];
  fill_callbacks = [];
  pre_submit_callbacks = [];
  router = none;
  routing_states = [];
  parent_by_child = [];
  next_order_id = 1;
  next_fill_id = 1;
  clock_reads = 0;
  log = [];
}

abbrev tick_at : ℕ → ℕ → Update ℤ
tick_at price seconds = Update.tick (record {
  timestamp = pos (1000000 * seconds);
  symbol = 7;
  price = pos price;
  quantity = pos 1;
  flags = 0;
})

abbrev falling : List (Update ℤ)
falling = tick_at 101 1 ∷ tick_at 99 2 ∷ tick_at 98 3 ∷ []

abbrev sizes : Manager ℤ → List (OrderSide × ℤ)
sizes m = map (λ (e : ℕ × Order ℤ). (e.1.side, e.1.quantity)) m.orders

-- Two ticks are below the stop: one order sells the ten.
one_exit :
    sizes (observe_all whole (λ n. n) (λ n. pos n) falling stops no_orders).1
    ≡ (OrderSide.sell, pos 10) ∷ []
unfolding on_position_update insert lookup on_tick submit_order ◌*ℤ◌ ◌-ℤ◌ ◌+ℤ◌ validate_order
    notify_orders
one_exit = refl

abbrev no_buying : RiskManager ℤ
no_buying = record { limits = RiskLimit.max_notional (pos 0) ∷ []; regime_limits = [] }

abbrev poor : Portfolio ℤ
unfolding new_portfolio
poor = new_portfolio whole (pos 0) "USD"

observe_all-Exited_example :
    Exited whole (λ n. n) (λ n. pos n) poor no_buying stops no_orders falling
unfolding on_position_update insert lookup new_portfolio
observe_all-Exited_example =
    observe_all-Exited whole (λ n. n) (λ n. pos n) poor no_buying falling stops no_orders
