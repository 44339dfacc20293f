-- ===== src/Engine/OrderManager/State.antt =====
-- The fields of `OrderManager` (include/regimeflow/engine/order_manager.h), and the actions on them.
--
-- A callback is named by a number: a run of the callbacks appends to `log` what each was called with,
-- so callbacks do not call the manager back. `Timestamp::now()` is the next value of `clock`. Each
-- method runs to its end: the mutex makes the locked parts atomic, and no other thread comes between.
use regime_flow.Base.{◌+◌, length, ℕ, suc, Bool, Option, List, [], ◌∷◌, ◌++◌, map}
use regime_flow.Base.Int.{ℤ}
use regime_flow.Base.Table.{Table}
use regime_flow.Result.{Result}
use regime_flow.Engine.Order.{
  Order, Fill, SplitMode, ParentAggregation, RoutingContext, RoutingPlan,
}

pub record RoutingState (R : Type 0) : Type 0 where
  pub split_mode : SplitMode
  pub aggregation : ParentAggregation
  pub activated : Bool
  pub filled_quantity : R
  pub avg_fill_price : R
  pub had_reject : Bool
  pub had_cancel : Bool
  pub pending_children : List (Order R)
  pub submitted_children : List ℕ
  pub terminal_children : List ℕ

pub data Notice (R : Type 0) : Type 0 where
  order_update : ℕ → Order R → Notice R
  fill_update : ℕ → Fill R → Notice R

-- `router_->route` and `routing_context_provider_`
pub record Router (R : Type 0) : Type 0 where
  pub route : Order R → RoutingContext R → RoutingPlan R
  pub context : Option (Order R → RoutingContext R)

pub record Manager (R : Type 0) : Type 0 where
  pub orders : Table (Order R)
  pub fills : Table (List (Fill R))
  pub order_callbacks : List ℕ
  pub fill_callbacks : List ℕ
  pub pre_submit_callbacks : List (Order R → Result (Order R))
  pub router : Option (Router R)
  pub routing_states : Table (RoutingState R)
  pub parent_by_child : Table ℕ
  pub next_order_id : ℕ
  pub next_fill_id : ℕ
  pub clock_reads : ℕ
  pub log : List (Notice R)

-- A method's result and the state that it leaves; no result if the recursion ran out of fuel.
abbrev pub Action : Type 0 → Type 0 → Type 0
Action R A = Manager R → Option (Result A) × Manager R

module _ {R : Type 0} where
  -- `for (const auto& cb : order_callbacks_) cb(order);`
  unfoldable pub notify_order : Order R → Manager R → Manager R
  notify_order o m = record m { log = m.log ++ map (λ cb. order_update cb o) m.order_callbacks }

  unfoldable pub notify_orders : List (Order R) → Manager R → Manager R
  unfolding notify_order
  notify_orders [] m = m
  notify_orders (o ∷ os) m = notify_orders os (notify_order o m)

  unfoldable pub notify_fill : Fill R → Manager R → Manager R
  notify_fill f m = record m { log = m.log ++ map (λ cb. fill_update cb f) m.fill_callbacks }

  -- `Timestamp::now()`
  unfoldable pub read_clock : (ℕ → ℤ) → Manager R → ℤ × Manager R
  read_clock clock m = (clock m.clock_reads, record m { clock_reads = suc m.clock_reads })

  -- The children that wait for submission, over all parents.
  unfoldable pub pending_total : Table (RoutingState R) → ℕ
  pending_total [] = 0
  pending_total ((_, s) ∷ t) = length s.pending_children + pending_total t
