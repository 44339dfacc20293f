-- ===== src/Live/OrderManager/Operations.antt =====
-- The other methods of src/live/live_order_manager.cpp that change the state.
use regime_flow.Base.Table.{contains, values, insert, lookup}
use regime_flow.Engine.OrderManager.Operations.{OrderModification}
use regime_flow.Result.{ErrorCode, fail, Result, Void, err, ok}
use regime_flow.Base.{
  ◌||◌, ◌∷◌, select, if◌then◌else◌, ◌++◌, List, Option, ℕ, String, Bool, [], false, true, some,
  none,
}
use text.Mathlib.Text.{◌==◌ as str_eq}
use regime_flow.Live.Order.{LiveOrder, LiveOrderStatus, same_status}
use regime_flow.Live.OrderManager.State.{
  Quote, BrokerAdapter, LiveManager, LiveAction, note, notify_order, record_reference_quote,
}

unfoldable pub is_cancellable : LiveOrderStatus → Bool
is_cancellable LiveOrderStatus.new = true
is_cancellable LiveOrderStatus.pending_new = true
is_cancellable LiveOrderStatus.partially_filled = true
is_cancellable _ = false

module _ {R B : Type 0} where
  -- `broker_->cancel_order(broker_order_id)`
  unfoldable pub ask_cancel : BrokerAdapter R B → String → LiveAction R B Void
  ask_cancel broker broker_id m =
      let (answer, b) = broker.cancel_order broker_id m.broker_state in
      (answer, record m { broker_state = b })

  unfoldable pub finish_cancel :
      ℕ → LiveOrder R → Result Void × LiveManager R B → Result Void × LiveManager R B
  unfolding notify_order
  finish_cancel id o (err e, m) = (err e, m)
  finish_cancel id o (ok _, m) =
      let o' = record o { status = LiveOrderStatus.pending_cancel } in
      (ok tt, notify_order o' (record m { orders = insert id o' m.orders }))

  unfoldable pub cancel_found : BrokerAdapter R B → ℕ → Option (LiveOrder R) → LiveAction R B Void
  unfolding ask_cancel finish_cancel
  cancel_found broker id none m = (fail ErrorCode.not_found "Order not found", m)
  cancel_found broker id (some o) m = finish_cancel id o (ask_cancel broker o.broker_order_id m)

  unfoldable pub cancel_by : Option (BrokerAdapter R B) → ℕ → LiveAction R B Void
  unfolding cancel_found
  cancel_by none id m = (fail ErrorCode.invalid_state "Broker adapter not configured", m)
  cancel_by (some broker) id m = cancel_found broker id (lookup id m.orders) m

  unfoldable pub cancel_order : ℕ → LiveAction R B Void
  unfolding cancel_by
  cancel_order id m = cancel_by m.broker id m

  -- The loop of `cancel_all_orders` and `cancel_orders`, over the orders that `p` picks. There is no
  -- result where the code goes through a null `broker_`.
  unfoldable pub cancel_each :
      Option (BrokerAdapter R B)
      → (LiveOrder R → Bool)
      → List (LiveOrder R)
      → LiveManager R B
      → Option (Result Void) × LiveManager R B
  unfolding ask_cancel
  cancel_each broker p [] m = (some (ok tt), m)
  cancel_each none p (o ∷ os) m = if p o then (none, m) else cancel_each none p os m
  cancel_each (some broker) p (o ∷ os) m = elim (p o) [
    | false ↦ cancel_each (some broker) p os m
    | true ↦
        let (answer, n) = ask_cancel broker o.broker_order_id m in
        elim answer [ err e ↦ (some (err e), n) | ok _ ↦ cancel_each (some broker) p os n ]
  ]

  unfoldable pub cancel_all_orders : LiveManager R B → Option (Result Void) × LiveManager R B
  unfolding cancel_each is_cancellable
  cancel_all_orders m = cancel_each m.broker (λ o. is_cancellable o.status) (values m.orders) m

  unfoldable pub cancel_orders : String → LiveManager R B → Option (Result Void) × LiveManager R B
  unfolding cancel_each
  cancel_orders symbol m = cancel_each m.broker (λ o. str_eq o.symbol symbol) (values m.orders) m

  unfoldable pub modify_found :
      BrokerAdapter R B → OrderModification R → Option (LiveOrder R) → LiveAction R B Void
  modify_found broker change none m = (fail ErrorCode.not_found "Order not found", m)
  modify_found broker change (some o) m =
      let (answer, b) = broker.modify_order o.broker_order_id change m.broker_state in
      (answer, record m { broker_state = b })

  unfoldable pub modify_by :
      Option (BrokerAdapter R B) → ℕ → OrderModification R → LiveAction R B Void
  unfolding modify_found
  modify_by none id change m = (fail ErrorCode.invalid_state "Broker adapter not configured", m)
  modify_by (some broker) id change m = modify_found broker change (lookup id m.orders) m

  unfoldable pub modify_order : ℕ → OrderModification R → LiveAction R B Void
  unfolding modify_by
  modify_order id change m = modify_by m.broker id change m

  unfoldable pub on_execution_report : ℕ → LiveManager R B → LiveManager R B
  on_execution_report cb m = record m { exec_callbacks = m.exec_callbacks ++ cb ∷ [] }

  unfoldable pub on_order_update : ℕ → LiveManager R B → LiveManager R B
  on_order_update cb m = record m { order_callbacks = m.order_callbacks ++ cb ∷ [] }

  unfoldable pub record_quote : ℕ → Quote R → LiveManager R B → LiveManager R B
  unfolding note
  record_quote id quote m =
      if contains id m.orders then note (record_reference_quote id quote) m else m

  unfoldable pub get_order : ℕ → LiveManager R B → Option (LiveOrder R)
  get_order id m = lookup id m.orders

  unfoldable pub get_open_orders : LiveManager R B → List (LiveOrder R)
  get_open_orders m =
      select (λ o. is_cancellable o.status || same_status o.status LiveOrderStatus.pending_cancel)
        (values m.orders)

  unfoldable pub get_orders_by_status : LiveOrderStatus → LiveManager R B → List (LiveOrder R)
  get_orders_by_status status m = select (λ o. same_status o.status status) (values m.orders)
