-- ===== src/Engine/OrderManager/Filling.antt =====
-- `process_fill` of src/engine/order_manager.cpp on orders that are no children of a route.
use regime_flow.Engine.OrderManager.Status.{submit_next}
use regime_flow.Engine.OrderManager.Queries.{get_fills}
use regime_flow.Base.Table.{lookup-insert, lookup}
use regime_flow.Engine.OrderManager.State.{notify_orders, Manager}
use regime_flow.Engine.OrderManager.Operations.{push_fill, process_found, fill_order, process_fill}
use regime_flow.Engine.Order.{Order, Fill}
use regime_flow.Base.Int.{pos, eqb_ℤ, ℤ}
use regime_flow.Base.Double.{Double}
use regime_flow.Result.{ok}
use regime_flow.Base.{Option-cases, arith, ◌∷◌, ◌++◌, ◌≡◌, ◌==◌, if◌then◌else◌, ℕ, [], some, none}

module _ (num : Double) (clock : ℕ → ℤ) where
  open num use {Real, add, abs}

  -- A fill with the identifier and the time that `process_fill` gives it.
  abbrev pub stamped : Fill Real → Manager Real → Fill Real
  stamped f m = record f {
    id = if f.id == 0 then m.next_fill_id else f.id;
    timestamp = if eqb_ℤ f.timestamp (pos 0) then clock m.clock_reads else f.timestamp;
  }

  process_some-plain :
      (f : Fill Real) (o : Order Real) (m : Manager Real) (j : ℕ)
      → lookup f.order_id m.parent_by_child ≡ none
      → let (r, n) = process_found num clock f (some o) m in
        (r ≡ some (ok tt))
        × (lookup j n.orders ≡ (
            if f.order_id == j
            then some (fill_order num clock (stamped f m) o)
            else lookup j m.orders))
        × (get_fills j n
            ≡ (if f.order_id == j then get_fills j m ++ stamped f m ∷ [] else get_fills j m))
        × (n.parent_by_child ≡ m.parent_by_child)
  unfolding process_found get_fills notify_orders submit_next
  process_some-plain f o m j p = ground (
    arith,
    lookup-insert f.order_id j (fill_order num clock (stamped f m) o) m.orders,
    lookup-insert f.order_id j (push_fill num clock (stamped f m) (lookup f.order_id m.fills))
        m.fills,
    Option-cases (lookup f.order_id m.fills),
  )

  -- A fill of an order that is no routed child is applied to that order alone, and is appended to the
  -- fills that are kept for it.
  pub process_fill-plain :
      (f : Fill Real) (o : Order Real) (m : Manager Real) (j : ℕ)
      → lookup f.order_id m.orders ≡ some o
      → lookup f.order_id m.parent_by_child ≡ none
      → let (r, n) = process_fill num clock f m in
        (r ≡ some (ok tt))
        × (lookup j n.orders ≡ (
            if f.order_id == j
            then some (fill_order num clock (stamped f m) o)
            else lookup j m.orders))
        × (get_fills j n
            ≡ (if f.order_id == j then get_fills j m ++ stamped f m ∷ [] else get_fills j m))
        × (n.parent_by_child ≡ m.parent_by_child)
  unfolding process_fill
  process_fill-plain f o m j e p = rw (e, process_found) (process_some-plain f o m j p)
