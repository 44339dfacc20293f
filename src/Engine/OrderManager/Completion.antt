-- ===== src/Engine/OrderManager/Completion.antt =====
-- Once each child of a parent has ended, the parent is closed: a run of `handle_child_terminal`
-- (src/engine/order_manager.cpp).
use regime_flow.Engine.OrderManager.Validation.{is_open_status}
use regime_flow.Base.Table.{lookup-insert, lookup}
use regime_flow.Base.Int.{ℤ}
use regime_flow.Engine.OrderManager.State.{RoutingState, Manager}
use regime_flow.Engine.Order.{Order, OrderStatus}
use regime_flow.Engine.OrderManager.Routing.{
  finished_parent, mark_terminal, add_to_set, handle_child_terminal,
}
use regime_flow.Base.Double.{Double}
use regime_flow.Base.{arith, ◌<◌, ◌+◌, ◌≤◌, ◌∷◌, length, ◌≡◌, List, ℕ, [], false, some}

module _ (num : Double) where
  open num use {Real}

  -- A report that a child has ended: the child, its status and the time.
  abbrev pub Report : Type 0
  Report = ℕ × OrderStatus × ℤ

  -- The manager after a run of reports.
  unfoldable pub report_all : ℕ → List Report → Manager Real → Manager Real
  report_all parent_id [] m = m
  report_all parent_id ((c, status, ts) ∷ rs) m =
      report_all parent_id rs (handle_child_terminal num parent_id c status ts m).2

  -- The children are distinct, and none is among those that have ended.
  abbrev pub AreNew : List ℕ → List Report → Type 0
  AreNew seen [] = Unit
  AreNew seen ((c, _, _) ∷ rs) =
      (length (add_to_set c seen) ≡ length seen + 1) × AreNew (add_to_set c seen) rs

  abbrev pub IsClosed : ℕ → Manager Real → Type 0
  IsClosed parent_id n =
      (p : Order Real) × (lookup parent_id n.orders ≡ some p) × (is_open_status p.status ≡ false)

  mark_step :
      (parent_id c : ℕ) (status : OrderStatus) (ts : ℤ) (m : Manager Real) (p : Order Real)
      (s : RoutingState Real)
      → lookup parent_id m.orders ≡ some p
      → lookup parent_id m.routing_states ≡ some s
      → s.pending_children ≡ []
      → length (add_to_set c s.terminal_children) < length s.submitted_children
      → let n = (handle_child_terminal num parent_id c status ts m).2 in
        (lookup parent_id n.orders ≡ some p)
        × (lookup parent_id n.routing_states ≡ some (mark_terminal c status s))
  unfolding handle_child_terminal
  mark_step parent_id c status ts m p s e r none_pending few =
      rw (r, handle_child_terminal)
        (ground
          (arith, lookup-insert parent_id parent_id (mark_terminal c status s) m.routing_states))

  close_step :
      (parent_id c : ℕ) (status : OrderStatus) (ts : ℤ) (m : Manager Real) (p : Order Real)
      (s : RoutingState Real)
      → lookup parent_id m.orders ≡ some p
      → lookup parent_id m.routing_states ≡ some s
      → s.pending_children ≡ []
      → length s.submitted_children ≤ length (add_to_set c s.terminal_children)
      → IsClosed parent_id (handle_child_terminal num parent_id c status ts m).2
  unfolding handle_child_terminal
  close_step parent_id c status ts m p s e r none_pending all =
      let s' = mark_terminal c status s in
      let q = finished_parent num s' ts p in
      (
        q,
        rw (r, handle_child_terminal)
            (ground (
              arith,
              lookup-insert parent_id parent_id s' m.routing_states,
              lookup-insert parent_id parent_id q m.orders,
            )),
        unfold finished_parent is_open_status in (ground arith),
      )

  -- When the last of a parent's children has been reported as ended, with none pending, the parent is closed.
  pub report_all-IsClosed :
      (parent_id : ℕ) (r : Report) (rs : List Report) (m : Manager Real)
      → (p : Order Real) (s : RoutingState Real) → lookup parent_id m.orders ≡ some p
      → lookup parent_id m.routing_states ≡ some s
      → s.pending_children ≡ []
      → AreNew s.terminal_children (r ∷ rs)
      → length s.terminal_children + length (r ∷ rs) ≡ length s.submitted_children
      → IsClosed parent_id (report_all parent_id (r ∷ rs) m)
  unfolding report_all mark_terminal
  report_all-IsClosed parent_id (c, status, ts) [] m p s e r none_pending fresh count =
      close_step parent_id c status ts m p s e r none_pending (omega (arith, fresh.0))
  report_all-IsClosed parent_id (c, status, ts) (q ∷ rs) m p s e r none_pending fresh count =
      let step = mark_step parent_id c status ts m p s e r none_pending (omega (arith, fresh.0)) in
      report_all-IsClosed parent_id q rs (handle_child_terminal num parent_id c status ts m).2 p
        (mark_terminal c status s) step.0 step.1 none_pending fresh.1
        (omega (arith, fresh.0, count))
