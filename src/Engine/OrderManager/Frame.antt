-- ===== src/Engine/OrderManager/Frame.antt =====
-- What the recursive operations of src/engine/order_manager.cpp leave alone, and the number of pending
-- children, which they never raise.
use regime_flow.Base.{◌≡◌, ◌≤◌, arith}
use regime_flow.Engine.OrderManager.State.{Manager, pending_total}

-- From `m` to `n` no field but the orders, the routing, the identifiers, the clock and the log has
-- changed, and no more children are pending.
pub record Frame {R : Type 0} (m n : Manager R) : Type 0 where
  pub fills : n.fills ≡ m.fills
  pub next_fill_id : n.next_fill_id ≡ m.next_fill_id
  pub order_callbacks : n.order_callbacks ≡ m.order_callbacks
  pub fill_callbacks : n.fill_callbacks ≡ m.fill_callbacks
  pub pre_submit_callbacks : n.pre_submit_callbacks ≡ m.pre_submit_callbacks
  pub router : n.router ≡ m.router
  pub pending : pending_total n.routing_states ≤ pending_total m.routing_states

module _ {R : Type 0} where
  pub Frame-self : (m : Manager R) → Frame m m
  Frame-self m = ground arith

  pub Frame-trans : {l m n : Manager R} → Frame l m → Frame m n → Frame l n
  Frame-trans h k = ground arith
