-- ===== src/Live/Tests.antt =====
-- Runs of the live orders of src/live on small inputs.
use regime_flow.Base.Table.{insert, lookup}
use regime_flow.Base.Int.{◌+ℤ◌, pos, ℤ}
use regime_flow.Result.{ok}
use regime_flow.Live.Order.{
  LiveOrder, LiveOrderStatus, ExecutionReport, is_terminal_status, update_order_state,
}
use regime_flow.Live.Order.Transitions.{
  reports, reports-IsKept, reports-IsUnfilled, IsKept, IsUnfilled,
}
use regime_flow.Live.OrderManager.State.{LiveManager, BrokerAdapter}
use regime_flow.Live.OrderManager.Draft.{Formats, is_valid_order}
use regime_flow.Live.OrderManager.Submission.{submit_order}
use regime_flow.Live.OrderManager.Operations.{cancel_order}
use regime_flow.Live.OrderManager.Reports.{reconcile_reports}
use regime_flow.Live.OrderManager.Invariant.{IsNumbered}
use regime_flow.Live.OrderManager.Life.{LiveReach, LiveStep, LiveReach-IsNumbered}
use regime_flow.Live.OrderManager.Fresh.{IsSubmitted, submit_order-IsSubmitted}
use regime_flow.Live.OrderManager.Known.{IsKnown, reconcile_reports-IsKnown}
use regime_flow.Engine.Order.{Order, market_order, OrderSide, OrderType}
use regime_flow.Base.Double.{whole}
use regime_flow.Base.{All, ◌+◌, ◌≡◌, arith, String, ℕ, refl, some, none, ◌∷◌, []}

abbrev live : ℕ → LiveOrderStatus → LiveOrder ℤ
live id status = record {
  internal_id = id;
  broker_order_id = "b1";
  broker_exec_id = "";
  symbol = "S";
  side = OrderSide.buy;
  type = OrderType.market;
  quantity = pos 10;
  filled_quantity = pos 4;
  limit_price = pos 0;
  stop_price = pos 0;
  avg_fill_price = pos 2;
  venue = "";
  expected_queue_delay_ms = pos 0;
  queue_position = pos 0;
  status = status;
  status_message = "";
  created_at = pos 1;
  submitted_at = pos 1;
  acked_at = pos 0;
  filled_at = pos 0;
}

abbrev report : String → LiveOrderStatus → ExecutionReport ℤ
report broker_id status = record {
  broker_order_id = broker_id;
  broker_exec_id = "x";
  symbol = "S";
  side = OrderSide.buy;
  quantity = pos 6;
  price = pos 2;
  commission = pos 0;
  status = status;
  text = "";
  timestamp = pos 9;
}

-- It accepts every order, counts them, and has one open.
abbrev broker : BrokerAdapter ℤ ℕ
broker = record {
  submit_order = λ o n. (ok "b2", n + 1);
  cancel_order = λ id n. (ok tt, n);
  modify_order = λ id change n. (ok tt, n);
  get_open_orders = λ n. (report "b3" LiveOrderStatus.new ∷ [], n);
}

abbrev manager : LiveManager ℤ ℕ
manager = record {
  orders = (1, live 1 LiveOrderStatus.new) ∷ [];
  broker = some broker;
  broker_state = 0;
  next_order_id = 2;
  duplicate_order_window_us = pos 0;
  recent_order_keys = [];
  exec_callbacks = [];
  order_callbacks = 7 ∷ [];
  clock_reads = 0;
  log = [];
}

abbrev formats : Formats ℤ
formats = record {
  strtod = λ s. none;
  print = λ x. "0";
  print_ℕ = λ n. "1";
  symbol_name = λ n. "S";
}

abbrev clock : ℕ → ℤ
clock n = pos (100 + n)

abbrev ten : Order ℤ
ten = market_order whole 5 OrderSide.buy (pos 10)

manager-IsNumbered : IsNumbered manager
manager-IsNumbered = ((omega arith, refl), tt)

-- A fill that comes in after the cancellation was asked for is taken for an error and not counted.
late_fill_is_lost :
    let o =
      update_order_state whole
        (report "b1" LiveOrderStatus.filled)
        (live 1 LiveOrderStatus.pending_cancel) in
    (o.status ≡ LiveOrderStatus.error) × (o.filled_quantity ≡ pos 4)
unfolding update_order_state
late_fill_is_lost = (refl, refl)

-- The same last fill, reported twice, is counted twice.
last_fill_counts_twice :
    (reports whole
      (report "b1" LiveOrderStatus.filled ∷ report "b1" LiveOrderStatus.filled ∷ [])
      (live 1 LiveOrderStatus.new)).filled_quantity
    ≡ pos 16
unfolding reports update_order_state ◌+ℤ◌
last_fill_counts_twice = refl

-- A filled order whose cancellation the broker accepts waits for its cancellation.
filled_order_is_cancelled :
    let (_, n) =
      cancel_order 1 (record manager { orders = (1, live 1 LiveOrderStatus.filled) ∷ [] }) in
    elim (lookup 1 n.orders) [ none ↦ LiveOrderStatus.error | some o ↦ o.status ]
    ≡ LiveOrderStatus.pending_cancel
unfolding cancel_order lookup insert
filled_order_is_cancelled = refl

reports-IsKept_example :
    IsKept whole LiveOrderStatus.cancelled
      (reports whole
        (report "b1" LiveOrderStatus.new ∷ [])
        (live 1 LiveOrderStatus.cancelled)).status
unfolding is_terminal_status
reports-IsKept_example =
    reports-IsKept whole (report "b1" LiveOrderStatus.new ∷ []) (live 1 LiveOrderStatus.cancelled)
      refl

reports-IsUnfilled_example : IsUnfilled whole (live 1 LiveOrderStatus.pending_cancel) (
    reports whole (report "b1" LiveOrderStatus.filled ∷ []) (live 1 LiveOrderStatus.pending_cancel))
unfolding is_terminal_status
reports-IsUnfilled_example =
    reports-IsUnfilled whole (report "b1" LiveOrderStatus.filled ∷ [])
      (live 1 LiveOrderStatus.pending_cancel) refl

LiveReach-IsNumbered_example : IsNumbered (cancel_order 1 manager).1
LiveReach-IsNumbered_example =
    LiveReach-IsNumbered whole formats clock manager-IsNumbered
      (LiveReach.next LiveReach.here (LiveStep.cancels 1))

submit_order-IsSubmitted_example :
    IsSubmitted whole formats clock ten "b2" manager
      (submit_order whole formats clock ten (record manager { broker = some broker }))
unfolding is_valid_order market_order
submit_order-IsSubmitted_example =
    submit_order-IsSubmitted whole formats clock broker ten "b2" 1 manager manager-IsNumbered refl
      refl refl (omega arith) refl

reconcile_reports-IsKnown_example :
    All
      (λ (r : ExecutionReport ℤ).
        IsKnown r.broker_order_id
          (reconcile_reports whole (report "b3" LiveOrderStatus.new ∷ []) manager).orders)
      (report "b3" LiveOrderStatus.new ∷ [])
reconcile_reports-IsKnown_example =
    reconcile_reports-IsKnown whole (report "b3" LiveOrderStatus.new ∷ []) manager (omega arith)
      manager-IsNumbered
