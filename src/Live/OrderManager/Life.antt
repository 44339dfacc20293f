-- ===== src/Live/OrderManager/Life.antt =====
-- The methods of src/live/live_order_manager.cpp in any order, as a step relation.
use regime_flow.Engine.Order.{Order}
use regime_flow.Base.Int.{ℤ}
use regime_flow.Engine.OrderManager.Operations.{OrderModification}
use regime_flow.Live.Order.{LiveOrderStatus, LiveOrder, ExecutionReport}
use regime_flow.Live.OrderManager.Draft.{Formats}
use regime_flow.Base.Double.{Double}
use regime_flow.Base.Table.{values, Table, lookup}
use regime_flow.Live.OrderManager.State.{Quote, notify_order, BrokerAdapter, LiveManager}
use regime_flow.Live.OrderManager.Submission.{set_duplicate_order_window, submit_order}
use regime_flow.Live.OrderManager.Operations.{
  record_quote, on_execution_report, on_order_update, modify_by, cancel_by, cancel_order,
  cancel_found, finish_cancel, ask_cancel, cancel_each, modify_order, modify_found,
}
use regime_flow.Live.OrderManager.Reports.{
  reconcile_by, reconcile_with_broker, reconcile_with, handle_execution_report, restore_order,
}
use regime_flow.Live.OrderManager.Numbers.{AreBelow-insert, AreBelow}
use regime_flow.Live.OrderManager.Invariant.{
  IsNumbered, HasRoom, submit_to-IsNumbered, handle_execution_report-IsNumbered,
  reconcile_reports-IsNumbered, restore_order-IsNumbered,
}
use regime_flow.Base.{
  String, ◌^◌, length, ◌+◌, ◌<◌, Bool, arith, ◌≡◌, ℕ, List, Option, refl, some, none, ◌∷◌, [],
}

module _ {R : Type 0} where
  lookup-IsBelow :
      (n id : ℕ) (o : LiveOrder R) (t : Table (LiveOrder R))
      → lookup id t ≡ some o
      → AreBelow n t
      → (id < n) × (o.internal_id ≡ id)
  unfolding lookup
  lookup-IsBelow n id o [] e a = grind (arith, e)
  lookup-IsBelow n id o ((j, p) ∷ t) e a = ground (arith, e, lookup-IsBelow n id o t)

module _ {R B : Type 0} where
  abbrev pub reports_from : Option (BrokerAdapter R B) → B → List (ExecutionReport R)
  reports_from none b = []
  reports_from (some broker) b = (broker.get_open_orders b).0

  -- The open orders that the broker tells of when it is asked next.
  abbrev pub open_reports : LiveManager R B → List (ExecutionReport R)
  open_reports m = reports_from m.broker m.broker_state

  cancel_found-IsNumbered :
      (broker : BrokerAdapter R B) (id : ℕ) (found : Option (LiveOrder R)) (m : LiveManager R B)
      → lookup id m.orders ≡ found
      → IsNumbered m
      → IsNumbered (cancel_found broker id found m).1
  unfolding cancel_found finish_cancel ask_cancel notify_order
  cancel_found-IsNumbered broker id none m e v = v
  cancel_found-IsNumbered broker id (some o) m e v =
      let k = lookup-IsBelow m.next_order_id id o m.orders e v in
      ground (
        arith,
        v,
        AreBelow-insert m.next_order_id id (record o { status = LiveOrderStatus.pending_cancel })
            m.orders k.0 k.1 v,
      )

  cancel_by-IsNumbered :
      (broker : Option (BrokerAdapter R B)) (id : ℕ) (m : LiveManager R B)
      → IsNumbered m
      → IsNumbered (cancel_by broker id m).1
  unfolding cancel_by
  cancel_by-IsNumbered none id m v = v
  cancel_by-IsNumbered (some broker) id m v =
      cancel_found-IsNumbered broker id (lookup id m.orders) m refl v

  modify_by-IsNumbered :
      (broker : Option (BrokerAdapter R B)) (id : ℕ) (change : OrderModification R)
      (m : LiveManager R B)
      → IsNumbered m
      → IsNumbered (modify_by broker id change m).1
  unfolding modify_by modify_found
  modify_by-IsNumbered none id change m v = v
  modify_by-IsNumbered (some broker) id change m v = ground (arith, v)

  cancel_each-IsNumbered :
      (broker : Option (BrokerAdapter R B)) (p : LiveOrder R → Bool) (os : List (LiveOrder R))
      (m : LiveManager R B)
      → IsNumbered m
      → IsNumbered (cancel_each broker p os m).1
  unfolding cancel_each ask_cancel
  cancel_each-IsNumbered broker p [] m v = v
  cancel_each-IsNumbered none p (o ∷ os) m v =
      ground (arith, v, cancel_each-IsNumbered none p os m v)
  cancel_each-IsNumbered (some broker) p (o ∷ os) m v =
      let (answer, b) = broker.cancel_order o.broker_order_id m.broker_state in
      ground (
        arith,
        v,
        cancel_each-IsNumbered (some broker) p os m v,
        cancel_each-IsNumbered (some broker) p os (record m { broker_state = b }) v,
      )

module _ (num : Double) {B : Type 0} (formats : Formats num.Real) (clock : ℕ → ℤ) where
  open num use {Real}

  -- One call of a method, with room left for the identifiers that it uses up.
  pub data LiveStep (m : LiveManager Real B) : LiveManager Real B → Type 0 where
    submits : (o : Order Real) → HasRoom o m → LiveStep m (submit_order num formats clock o m).1
    cancels : (id : ℕ) → LiveStep m (cancel_order id m).1
    cancels_each :
        (p : LiveOrder Real → Bool) → LiveStep m (cancel_each m.broker p (values m.orders) m).1
    modifies : (id : ℕ) (change : OrderModification Real) → LiveStep m (modify_order id change m).1
    reported : (r : ExecutionReport Real) → LiveStep m (handle_execution_report num r m)
    reconciles :
        m.next_order_id + length (open_reports m) < 2 ^ 64
        → LiveStep m (reconcile_with_broker num m).1
    restores :
        (id : ℕ) (broker_id symbol : String) (s : LiveOrderStatus)
        → id + 1 < 2 ^ 64
        → LiveStep m (restore_order num id broker_id symbol s m)
    configures : (window : ℤ) → LiveStep m (set_duplicate_order_window window m)
    listens : (cb : ℕ) → LiveStep m (on_order_update cb m)
    listens_to_reports : (cb : ℕ) → LiveStep m (on_execution_report cb m)
    quoted : (id : ℕ) (quote : Quote Real) → LiveStep m (record_quote id quote m)

  pub data LiveReach (m : LiveManager Real B) : LiveManager Real B → Type 0 where
    here : LiveReach m m
    next : {n k : LiveManager Real B} → LiveReach m n → LiveStep n k → LiveReach m k

  reconcile-IsNumbered :
      (broker : Option (BrokerAdapter Real B)) (m : LiveManager Real B)
      → m.next_order_id + length (reports_from broker m.broker_state) < 2 ^ 64
      → IsNumbered m
      → IsNumbered (reconcile_by num broker m).1
  unfolding reconcile_by reconcile_with
  reconcile-IsNumbered none m h v = v
  reconcile-IsNumbered (some broker) m h v =
      let (rs, b) = broker.get_open_orders m.broker_state in
      reconcile_reports-IsNumbered num rs (record m { broker_state = b }) h v

  LiveStep-IsNumbered : {m n : LiveManager Real B} → LiveStep m n → IsNumbered m → IsNumbered n
  unfolding submit_order reconcile_with_broker modify_order cancel_order set_duplicate_order_window
      on_order_update on_execution_report record_quote
  LiveStep-IsNumbered {m = m} (submits o h) v =
      submit_to-IsNumbered num formats clock m.broker o m h v
  LiveStep-IsNumbered {m = m} (cancels id) v = cancel_by-IsNumbered m.broker id m v
  LiveStep-IsNumbered {m = m} (cancels_each p) v =
      cancel_each-IsNumbered m.broker p (values m.orders) m v
  LiveStep-IsNumbered {m = m} (modifies id change) v = modify_by-IsNumbered m.broker id change m v
  LiveStep-IsNumbered {m = m} (reported r) v = handle_execution_report-IsNumbered num r m v
  LiveStep-IsNumbered {m = m} (reconciles h) v = reconcile-IsNumbered m.broker m h v
  LiveStep-IsNumbered {m = m} (restores id broker_id symbol s h) v =
      restore_order-IsNumbered num id broker_id symbol s m h v
  LiveStep-IsNumbered {m = m} (configures window) v = v
  LiveStep-IsNumbered {m = m} (listens cb) v = v
  LiveStep-IsNumbered {m = m} (listens_to_reports cb) v = v
  LiveStep-IsNumbered {m = m} (quoted id quote) v = ground (arith, v)

  -- Whichever methods are called and in whatever order, as long as the 64 bits suffice, each live order is
  -- stored under its own identifier, and the next identifier is above all that are in use.
  pub LiveReach-IsNumbered :
      {m n : LiveManager Real B} → IsNumbered m → LiveReach m n → IsNumbered n
  LiveReach-IsNumbered v here = v
  LiveReach-IsNumbered v (next r s) = LiveStep-IsNumbered s (LiveReach-IsNumbered v r)
