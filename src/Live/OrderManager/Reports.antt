-- ===== src/Live/OrderManager/Reports.antt =====
-- What the broker tells: `handle_execution_report`, `reconcile_with_broker`, `restore_order` and
-- `find_order_id_by_broker_id` of src/live/live_order_manager.cpp.
use regime_flow.Base.Word.{u64}
use regime_flow.Base.Table.{lookup, insert, Table}
use regime_flow.Base.Double.{Double}
use regime_flow.Result.{ErrorCode, fail, Void, ok}
use regime_flow.Base.Int.{pos}
use regime_flow.Base.{
  value_or, leb, ◌∷◌, if◌then◌else◌, List, Option, ℕ, String, suc, [], some, none,
}
use text.Mathlib.Text.{◌==◌ as str_eq}
use regime_flow.Engine.Order.{OrderSide, OrderType}
use regime_flow.Live.Order.{LiveOrder, LiveOrderStatus, ExecutionReport, update_order_state}
use regime_flow.Live.OrderManager.State.{
  BrokerAdapter, LiveManager, LiveAction, note, notify_order, notify_report,
  record_execution_report,
}

module _ {R : Type 0} where
  unfoldable pub find_id : String → Table (LiveOrder R) → Option ℕ
  find_id broker_id [] = none
  find_id broker_id ((id, o) ∷ t) =
      if str_eq o.broker_order_id broker_id then some id else find_id broker_id t

  unfoldable pub find_order_id_by_broker_id : {B : Type 0} → String → LiveManager R B → Option ℕ
  unfolding find_id
  find_order_id_by_broker_id broker_id m = find_id broker_id m.orders

  -- The rest of a map, with its first entry before it again.
  unfoldable pub keep_entry :
      ℕ × LiveOrder R
      → Option (LiveOrder R × Table (LiveOrder R))
      → Option (LiveOrder R × Table (LiveOrder R))
  keep_entry entry none = none
  keep_entry entry (some (o, t)) = some (o, entry ∷ t)

module _ (num : Double) where
  open num use {Real, nil}

  -- The loop that looks for the first order with the report's broker identifier and updates it: that
  -- order and the map with it.
  unfoldable pub update_first :
      ExecutionReport Real
      → Table (LiveOrder Real)
      → Option (LiveOrder Real × Table (LiveOrder Real))
  unfolding keep_entry update_order_state
  update_first report [] = none
  update_first report ((id, o) ∷ t) =
      let rest = update_first report t in
      let o' = update_order_state num report o in
      if str_eq o.broker_order_id report.broker_order_id
      then some (o', (id, o') ∷ t)
      else keep_entry (id, o) rest

  -- `LiveOrder live;`
  unfoldable pub blank_live : LiveOrder Real
  blank_live = record {
    internal_id = 0;
    broker_order_id = "";
    broker_exec_id = "";
    symbol = "";
    side = OrderSide.buy;
    type = OrderType.market;
    quantity = nil;
    filled_quantity = nil;
    limit_price = nil;
    stop_price = nil;
    avg_fill_price = nil;
    venue = "";
    expected_queue_delay_ms = nil;
    queue_position = nil;
    status = LiveOrderStatus.pending_new;
    status_message = "";
    created_at = pos 0;
    submitted_at = pos 0;
    acked_at = pos 0;
    filled_at = pos 0;
  }

  -- An order that the manager did not know of.
  unfoldable pub live_of_report : ℕ → ExecutionReport Real → LiveOrder Real
  unfolding blank_live
  live_of_report id report = record blank_live {
    internal_id = id;
    broker_order_id = report.broker_order_id;
    broker_exec_id = report.broker_exec_id;
    symbol = report.symbol;
    side = report.side;
    quantity = report.quantity;
    avg_fill_price = report.price;
    status = report.status;
    status_message = report.text;
    acked_at = report.timestamp;
  }

  unfoldable pub restored_order :
      ℕ → String → String → LiveOrderStatus → LiveOrder Real → LiveOrder Real
  restored_order id broker_id symbol status live = record live {
    internal_id = id;
    broker_order_id = broker_id;
    symbol = if str_eq symbol "" then live.symbol else symbol;
    status = status;
  }

  module _ {B : Type 0} where
    unfoldable pub handle_execution_report :
        ExecutionReport Real → LiveManager Real B → LiveManager Real B
    unfolding update_first note notify_report notify_order
    handle_execution_report report m = elim (update_first report m.orders) [
      | none ↦ m
      | some (o, t) ↦
          notify_order o (
            notify_report report
              (note (record_execution_report o report) (record m { orders = t })))
    ]

    -- The part of the loop of `reconcile_with_broker` after `found` is known to be false.
    unfoldable pub adopt_report : ExecutionReport Real → LiveManager Real B → LiveManager Real B
    unfolding live_of_report notify_order
    adopt_report report m =
        let live = live_of_report m.next_order_id report in
        notify_order live (record m {
          next_order_id = u64 (suc m.next_order_id);
          orders = insert m.next_order_id live m.orders;
        })

    unfoldable pub reconcile_report : ExecutionReport Real → LiveManager Real B → LiveManager Real B
    unfolding update_first adopt_report notify_report notify_order
    reconcile_report report m = elim (update_first report m.orders) [
      | none ↦ adopt_report report m
      | some (o, t) ↦ notify_order o (notify_report report (record m { orders = t }))
    ]

    unfoldable pub reconcile_reports :
        List (ExecutionReport Real) → LiveManager Real B → LiveManager Real B
    unfolding reconcile_report
    reconcile_reports [] m = m
    reconcile_reports (r ∷ rs) m = reconcile_reports rs (reconcile_report r m)

    unfoldable pub reconcile_with : BrokerAdapter Real B → LiveManager Real B → LiveManager Real B
    unfolding reconcile_reports
    reconcile_with broker m =
        let (rs, b) = broker.get_open_orders m.broker_state in
        reconcile_reports rs (record m { broker_state = b })

    unfoldable pub reconcile_by : Option (BrokerAdapter Real B) → LiveAction Real B Void
    unfolding reconcile_with
    reconcile_by none m = (fail ErrorCode.invalid_state "Broker adapter not configured", m)
    reconcile_by (some broker) m = (ok tt, reconcile_with broker m)

    unfoldable pub reconcile_with_broker : LiveAction Real B Void
    unfolding reconcile_by
    reconcile_with_broker m = reconcile_by m.broker m

    unfoldable pub restore_order :
        ℕ → String → String → LiveOrderStatus → LiveManager Real B → LiveManager Real B
    unfolding restored_order blank_live
    restore_order id broker_id symbol status m = if str_eq broker_id "" then m else record m {
      next_order_id = if leb m.next_order_id id then u64 (suc id) else m.next_order_id;
      orders =
          insert id
            (restored_order id broker_id symbol status (value_or (lookup id m.orders) blank_live))
            m.orders;
    }
