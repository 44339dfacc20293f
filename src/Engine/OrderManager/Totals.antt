-- ===== src/Engine/OrderManager/Totals.antt =====
-- Runs of `process_fill` and of `handle_child_fill` (src/engine/order_manager.cpp) add up the fills.
use regime_flow.Engine.OrderManager.Routing.{partial_parent, add_fill, handle_child_fill}
use regime_flow.Engine.OrderManager.Filling.{stamped, process_fill-plain}
use regime_flow.Engine.OrderManager.Queries.{get_fills}
use regime_flow.Base.Table.{lookup-insert, lookup}
use regime_flow.Engine.OrderManager.Operations.{fill_order, process_fill}
use regime_flow.Engine.OrderManager.State.{RoutingState, Manager}
use regime_flow.Engine.Order.{ParentAggregation, Order, Fill}
use regime_flow.Base.Int.{ℤ}
use regime_flow.Base.Double.{Double}
use regime_flow.Base.{
  length-append, arith, ◌+◌, length, ◌≡◌, All, ◌∷◌, Option, List, ℕ, [], refl, some, none,
}

module _ (num : Double) (clock : ℕ → ℤ) where
  open num use {Real, add, abs}

  -- The filled quantity after a run of fills.
  abbrev pub total_filled : Real → List (Fill Real) → Real
  total_filled q [] = q
  total_filled q (f ∷ fs) = total_filled (add q (abs f.quantity)) fs

  -- The manager after a run of calls of `process_fill`.
  unfoldable pub process_fills : List (Fill Real) → Manager Real → Manager Real
  process_fills [] m = m
  process_fills (f ∷ fs) m = process_fills fs (process_fill num clock f m).1

  abbrev pub filled_of : Option (Order Real) → Option Real
  filled_of none = none
  filled_of (some o) = some o.filled_quantity

  -- After any run of fills of one order, which is no routed child, the order's filled quantity is its old one
  -- with the size of each fill added in turn, and one fill more is on record for each call.
  pub process_fills-total :
      (id : ℕ) (fs : List (Fill Real)) (o : Order Real) (m : Manager Real)
      → All (λ (f : Fill Real). f.order_id ≡ id) fs
      → lookup id m.orders ≡ some o
      → lookup id m.parent_by_child ≡ none
      → let n = process_fills fs m in
        (filled_of (lookup id n.orders) ≡ some (total_filled o.filled_quantity fs))
        × (length (get_fills id n) ≡ length (get_fills id m) + length fs)
  unfolding process_fills fill_order
  process_fills-total id [] o m h e p = rw e (refl, omega arith)
  process_fills-total id (f ∷ fs) o m h e p =
      let (_, m1) = process_fill num clock f m in
      let step = process_fill-plain num clock f o m id (rw h.0 e) (rw h.0 p) in
      let o1 = fill_order num clock (stamped num clock f m) o in
      let ih =
        process_fills-total id fs o1 m1 h.1 (ground (arith, step, h.0)) (ground (arith, step, p)) in
      ground (arith, ih, step, h.0, length-append (get_fills id m) (stamped num clock f m ∷ []))

  -- The manager after the parent's side of a run of child fills.
  unfoldable pub child_fills : ℕ → List (Fill Real) → Manager Real → Manager Real
  child_fills parent_id [] m = m
  child_fills parent_id (f ∷ fs) m =
      child_fills parent_id fs (handle_child_fill num parent_id f m).1

  abbrev pub routed_of : Option (RoutingState Real) → Option Real
  routed_of none = none
  routed_of (some s) = some s.filled_quantity

  child_fill_step :
      (parent_id : ℕ) (f : Fill Real) (m : Manager Real) (p : Order Real) (s : RoutingState Real)
      → s.aggregation ≡ ParentAggregation.partial
      → lookup parent_id m.orders ≡ some p
      → lookup parent_id m.routing_states ≡ some s
      → let n = (handle_child_fill num parent_id f m).1 in
        (lookup parent_id n.orders ≡ some (partial_parent num (add_fill num f s) f.timestamp p))
        × (lookup parent_id n.routing_states ≡ some (add_fill num f s))
  unfolding handle_child_fill
  child_fill_step parent_id f m p s partial e r =
      let s' = add_fill num f s in
      rw (r, handle_child_fill)
        (ground (
          arith,
          lookup-insert parent_id parent_id s' m.routing_states,
          lookup-insert parent_id parent_id (partial_parent num s' f.timestamp p) m.orders,
        ))

  -- Where the parent shows fills as they come, a run of child fills leaves the same total in its routing
  -- state and, if there was any, in the parent: the routed total with the size of each fill added in turn.
  pub child_fills-total :
      (parent_id : ℕ) (f : Fill Real) (fs : List (Fill Real)) (m : Manager Real)
      → (p : Order Real) (s : RoutingState Real) → s.aggregation ≡ ParentAggregation.partial
      → lookup parent_id m.orders ≡ some p
      → lookup parent_id m.routing_states ≡ some s
      → let n = child_fills parent_id (f ∷ fs) m in
        (routed_of (lookup parent_id n.routing_states)
          ≡ some (total_filled s.filled_quantity (f ∷ fs)))
        × (filled_of (lookup parent_id n.orders) ≡ some (total_filled s.filled_quantity (f ∷ fs)))
  unfolding child_fills add_fill partial_parent
  child_fills-total parent_id f [] m p s partial e r =
      ground (arith, child_fill_step parent_id f m p s partial e r)
  child_fills-total parent_id f (g ∷ gs) m p s partial e r =
      let step = child_fill_step parent_id f m p s partial e r in
      let n = (handle_child_fill num parent_id f m).1 in
      let ih =
        child_fills-total parent_id g gs n (partial_parent num (add_fill num f s) f.timestamp p)
          (add_fill num f s) (ground (arith, partial)) step.0 step.1 in
      ground (arith, ih)
