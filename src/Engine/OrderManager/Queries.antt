-- ===== src/Engine/OrderManager/Queries.antt =====
-- The methods of src/engine/order_manager.cpp that only read, and those that register callbacks and
-- the router.
use regime_flow.Base.{
  ℕ, Bool, false, ◌&&◌, Option, none, some, List, [], ◌∷◌, ◌++◌, ◌==◌, map, value_or, select,
  String,
}
use regime_flow.Base.Int.{ℤ, leb_ℤ}
use regime_flow.Base.Table.{lookup, values, contains}
use regime_flow.Result.{Result}
use regime_flow.Engine.Order.{Order, Fill}
use regime_flow.Engine.OrderManager.State.{Manager, Router}
use regime_flow.Engine.OrderManager.Validation.{is_open_status, is_gtd}
use text.Mathlib.Text.{◌==◌ as str_eq}

-- `order.expire_at.has_value() && order.expire_at.value() <= now`
unfoldable pub has_expired : ℤ → Option ℤ → Bool
has_expired now none = false
has_expired now (some t) = leb_ℤ t now

module _ {R : Type 0} where
  unfoldable pub get_order : ℕ → Manager R → Option (Order R)
  get_order id m = lookup id m.orders

  unfoldable pub get_open_orders : Manager R → List (Order R)
  unfolding is_open_status
  get_open_orders m = select (λ o. is_open_status o.status) (values m.orders)

  unfoldable pub get_open_orders_of : ℕ → Manager R → List (Order R)
  unfolding is_open_status
  get_open_orders_of symbol m =
      select (λ o. o.symbol == symbol && is_open_status o.status) (values m.orders)

  unfoldable pub get_orders_by_strategy : String → Manager R → List (Order R)
  get_orders_by_strategy strategy_id m =
      select (λ o. str_eq o.strategy_id strategy_id) (values m.orders)

  unfoldable pub get_fills : ℕ → Manager R → List (Fill R)
  get_fills id m = value_or (lookup id m.fills) []

  -- The two nested loops of the `get_fills` by symbol and time.
  select_fills : ℕ → ℤ → ℤ → List (List (Fill R)) → List (Fill R)
  select_fills symbol start end [] = []
  select_fills symbol start end (fs ∷ fss) =
      select (λ f. f.symbol == symbol && leb_ℤ start f.timestamp && leb_ℤ f.timestamp end) fs
      ++ select_fills symbol start end fss

  unfoldable pub get_fills_of : ℕ → ℤ → ℤ → Manager R → List (Fill R)
  unfolding select_fills
  get_fills_of symbol start end m = select_fills symbol start end (values m.fills)

  unfoldable pub is_routing_parent : ℕ → Manager R → Bool
  is_routing_parent id m = contains id m.routing_states

  unfoldable pub is_routing_child : ℕ → Manager R → Bool
  is_routing_child id m = contains id m.parent_by_child

  unfoldable pub is_expired : ℤ → Order R → Bool
  unfolding is_open_status has_expired
  is_expired now o = is_open_status o.status && is_gtd o.tif && has_expired now o.expire_at

  unfoldable pub expired_order_ids : ℤ → Manager R → List ℕ
  unfolding is_expired
  expired_order_ids now m = map (λ (o : Order R). o.id) (select (is_expired now) (values m.orders))

  unfoldable pub on_order_update : ℕ → Manager R → Manager R
  on_order_update cb m = record m { order_callbacks = m.order_callbacks ++ cb ∷ [] }

  unfoldable pub on_fill : ℕ → Manager R → Manager R
  on_fill cb m = record m { fill_callbacks = m.fill_callbacks ++ cb ∷ [] }

  unfoldable pub on_pre_submit : (Order R → Result (Order R)) → Manager R → Manager R
  on_pre_submit cb m = record m { pre_submit_callbacks = m.pre_submit_callbacks ++ cb ∷ [] }

  unfoldable pub set_router : Router R → Manager R → Manager R
  set_router r m = record m { router = some r }

  unfoldable pub clear_router : Manager R → Manager R
  clear_router m = record m { router = none; routing_states = []; parent_by_child = [] }
