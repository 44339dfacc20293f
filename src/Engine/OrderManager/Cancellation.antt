-- ===== src/Engine/OrderManager/Cancellation.antt =====
-- `cancel_order` of src/engine/order_manager.cpp, on every branch.
use regime_flow.Engine.OrderManager.Open.{IsOpen}
use regime_flow.Base.Table.{insert, lookup}
use regime_flow.Engine.OrderManager.Operations.{children_of, update_status}
use regime_flow.Engine.OrderManager.State.{order_update, Manager}
use regime_flow.Engine.Order.{OrderStatus, Order}
use regime_flow.Base.Int.{ℤ}
use regime_flow.Base.Double.{Double}
use regime_flow.Result.{ErrorCode, fail, Void, Result, ok}
use regime_flow.Base.{fold, map, ◌++◌, ◌⊎◌, ◌≡◌, Option, List, ℕ, suc, some, none}

module _ (num : Double) (clock : ℕ → ℤ) where
  open num use {Real}

  -- An order that was cancelled now.
  abbrev pub cancelled_copy : Order Real → Manager Real → Order Real
  cancelled_copy o m = record o { status = OrderStatus.cancelled; updated_at = clock m.clock_reads }

  -- The manager once an order is marked as cancelled and the callbacks have been told.
  abbrev pub marked : ℕ → Order Real → Manager Real → Manager Real
  marked id o m = record m {
    orders = insert id (cancelled_copy o m) m.orders;
    clock_reads = suc m.clock_reads;
    log = m.log ++ map (λ cb. order_update cb (cancelled_copy o m)) m.order_callbacks;
  }

  -- The manager after status updates that cancel these orders, one after the other.
  abbrev pub all_cancelled : List ℕ → Manager Real → Manager Real
  all_cancelled ids m =
      fold (λ (n : Manager Real) c. (update_status num clock c OrderStatus.cancelled n).1) m ids

  -- What a cancellation of `id` does, by the order that is stored under it.
  abbrev pub Cancels :
      ℕ → Manager Real → Option (Order Real) → Option (Result Void) × Manager Real → Type 0
  Cancels id m none (r, n) = (r ≡ some (fail ErrorCode.not_found "Order not found")) × (n ≡ m)
  Cancels id m (some o) (r, n) =
      ((¬ IsOpen o.status) × (r ≡ some (fail ErrorCode.invalid_state "Order not open")) × (n ≡ m))
      ⊎ (IsOpen o.status
          × (r ≡ some (ok tt))
          × (n ≡ all_cancelled (children_of (lookup id m.routing_states)) (marked id o m)))
