-- ===== src/Engine/OrderManager/Children.antt =====
-- What `handle_child_terminal` of src/engine/order_manager.cpp hands back: a child to submit, or a parent
-- to announce, and never both.
use regime_flow.Engine.OrderManager.Pending.{finish_child-pending}
use regime_flow.Base.Table.{lookup-insert, lookup}
use regime_flow.Engine.Order.{Order, OrderStatus}
use regime_flow.Base.Int.{ℤ}
use regime_flow.Engine.OrderManager.Validation.{is_open_status}
use regime_flow.Engine.OrderManager.State.{RoutingState, Manager}
use regime_flow.Engine.OrderManager.Routing.{
  finalize_settled, copy_fills, is_final, put_routing, finished_parent, remaining_quantity,
  mark_terminal, end_child, finalize_parent, Settlement, handle_child_terminal, finish_child,
  take_next, finalize_parent_if_complete, final_status,
}
use regime_flow.Base.Double.{Double}
use regime_flow.Base.{
  Option, Option-cases, if◌then◌else◌, inr, inl, none, ◌∷◌, ◌≤◌, ◌+◌, arith, length, Bool, All, ◌≡◌,
  List, ℕ, [], false, some,
}

module _ (num : Double) where
  open num use {Real, lt, sub}

  -- A parent that is announced is closed, and is stored as it is announced.
  abbrev pub IsAnnounced : ℕ → Manager Real → Order Real → Type 0
  IsAnnounced parent_id n p =
      (is_open_status p.status ≡ false) × (lookup parent_id n.orders ≡ some p)

  final_status-closed :
      (p : Order Real) (had_reject : Bool) → is_open_status (final_status num p had_reject) ≡ false
  unfolding final_status is_open_status
  final_status-closed p had_reject = ground arith

  abbrev pub IsOutcome : ℕ → Settlement num → Type 0
  IsOutcome parent_id (parents, next, n) =
      All (IsAnnounced parent_id n) parents × (length parents + length next ≤ 1)

  finalize_parent-IsOutcome :
      (parent_id : ℕ) (ts : ℤ) (s : RoutingState Real) (p : Order Real) (m : Manager Real)
      → let (parents, n) = finalize_parent num parent_id ts s p m in
        IsOutcome parent_id (parents, [], n)
  unfolding finalize_parent
  finalize_parent-IsOutcome parent_id ts s p m = ground (
    arith,
    lookup-insert parent_id parent_id (finished_parent num s ts p) m.orders,
    final_status-closed (if is_final s.aggregation then copy_fills num s p else p) s.had_reject,
  )

  settled-IsOutcome :
      (parent_id : ℕ) (ts : ℤ) (s : RoutingState Real) (p : Option (Order Real)) (m : Manager Real)
      → let (parents, n) = finalize_settled num parent_id ts s p m in
        IsOutcome parent_id (parents, [], n)
  unfolding finalize_settled
  settled-IsOutcome parent_id ts s none m = (tt, omega arith)
  settled-IsOutcome parent_id ts s (some p) m = finalize_parent-IsOutcome parent_id ts s p m

  finalize-IsOutcome :
      (parent_id : ℕ) (ts : ℤ) (m : Manager Real)
      → let (parents, n) = finalize_parent_if_complete num parent_id ts m in
        IsOutcome parent_id (parents, [], n)
  unfolding finalize_parent_if_complete
  finalize-IsOutcome parent_id ts m = elim (Option-cases (lookup parent_id m.routing_states)) [
    | inl e ↦ rw (e, finalize_parent_if_complete) (tt, omega arith)
    | inr (s, e) ↦
        rw (e, finalize_parent_if_complete)
          (ground (arith, settled-IsOutcome parent_id ts s (lookup parent_id m.orders) m))
  ]

  take_next-one :
      (r : Real) (cs : List (Order Real)) (s : RoutingState Real)
      → length (take_next num r cs s).0 ≤ 1
  unfolding take_next
  take_next-one r [] s = omega arith
  take_next-one r (c ∷ cs) s = ground arith

  finish_child-IsOutcome :
      (parent_id : ℕ) (ts : ℤ) (next : List (Order Real)) (m : Manager Real)
      → length next ≤ 1
      → IsOutcome parent_id (finish_child num parent_id ts next m)
  unfolding finish_child
  finish_child-IsOutcome parent_id ts [] m h = finalize-IsOutcome parent_id ts m
  finish_child-IsOutcome parent_id ts (c ∷ cs) m h = (tt, omega arith)

  end_child-IsOutcome :
      (parent_id : ℕ) (ts : ℤ) (s : RoutingState Real) (m : Manager Real)
      → IsOutcome parent_id (end_child num parent_id ts s m)
  unfolding end_child
  end_child-IsOutcome parent_id ts s m =
      let (next, s') =
        take_next num (remaining_quantity num s (lookup parent_id m.orders)) s.pending_children s in
      ground (
        arith,
        finish_child-IsOutcome parent_id ts [] (put_routing parent_id s m),
        finish_child-IsOutcome parent_id ts next (put_routing parent_id s' m),
        take_next-one (remaining_quantity num s (lookup parent_id m.orders)) s.pending_children s,
      )

  -- When a child ends, at most one order comes of it: the next child of a sequential route, or the parent,
  -- which is then closed and stored as announced.
  pub handle_child_terminal-IsOutcome :
      (parent_id child_id : ℕ) (status : OrderStatus) (ts : ℤ) (m : Manager Real)
      → IsOutcome parent_id (handle_child_terminal num parent_id child_id status ts m)
  unfolding handle_child_terminal
  handle_child_terminal-IsOutcome parent_id child_id status ts m =
      elim (Option-cases (lookup parent_id m.routing_states)) [
        | inl e ↦ rw (e, handle_child_terminal) (tt, omega arith)
        | inr (s, e) ↦
            rw (e, handle_child_terminal)
              (end_child-IsOutcome parent_id ts (mark_terminal child_id status s) m)
      ]

  take_next-bounded :
      ((x : Real) → lt x x ≡ false)
      → (r : Real) (cs : List (Order Real)) (s : RoutingState Real)
      → All (λ (c : Order Real). lt r c.quantity ≡ false) (take_next num r cs s).0
  unfolding take_next
  take_next-bounded irrefl r [] s = tt
  take_next-bounded irrefl r (c ∷ cs) s = ground (arith, irrefl r)

  end_child-bounded :
      ((x : Real) → lt x x ≡ false)
      → (parent_id : ℕ) (ts : ℤ) (s : RoutingState Real) (m : Manager Real) (p : Order Real)
      → lookup parent_id m.orders ≡ some p
      → All
          (λ (c : Order Real). lt (sub p.quantity s.filled_quantity) c.quantity ≡ false)
          (end_child num parent_id ts s m).1
  unfolding end_child
  end_child-bounded irrefl parent_id ts s m p e =
      let r = sub p.quantity s.filled_quantity in
      let (next, s') = take_next num r s.pending_children s in
      rw (e, remaining_quantity)
        (ground (
          arith,
          finish_child-pending num parent_id ts [] (put_routing parent_id s m),
          finish_child-pending num parent_id ts next (put_routing parent_id s' m),
          take_next-bounded irrefl r s.pending_children s,
        ))

  -- Where no double is below itself, no child that `handle_child_terminal` hands out is larger than what its
  -- stored parent's quantity exceeds the routed fills by.
  pub handle_child_terminal-bounded :
      ((x : Real) → lt x x ≡ false)
      → (parent_id child_id : ℕ) (status : OrderStatus) (ts : ℤ) (m : Manager Real)
      → (p : Order Real) (s : RoutingState Real) → lookup parent_id m.orders ≡ some p
      → lookup parent_id m.routing_states ≡ some s
      → let (_, next, _) = handle_child_terminal num parent_id child_id status ts m in
        All (λ (c : Order Real). lt (sub p.quantity s.filled_quantity) c.quantity ≡ false) next
  unfolding handle_child_terminal
  handle_child_terminal-bounded irrefl parent_id child_id status ts m p s e r =
      rw (r, handle_child_terminal)
        (end_child-bounded irrefl parent_id ts (mark_terminal child_id status s) m p e)
