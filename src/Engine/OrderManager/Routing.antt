-- ===== src/Engine/OrderManager/Routing.antt =====
-- What the manager does to a parent order when one of its children fills or ends: `handle_child_fill`,
-- `handle_child_terminal` and `finalize_parent_if_complete` of src/engine/order_manager.cpp. The two
-- vectors that these append to are results here: the parents to announce and the children to submit.
use regime_flow.Base.{
  ℕ, Bool, true, false, ◌&&◌, ◌||◌, not, Option, none, some, List, [], ◌∷◌, ltb, ◌==◌,
  if◌then◌else◌, is_empty, length,
}
use regime_flow.Base.Int.{ℤ}
use regime_flow.Base.Table.{lookup, insert}
use regime_flow.Base.Double.{Double}
use regime_flow.Engine.Order.{Order, Fill, OrderStatus, SplitMode, ParentAggregation}
use regime_flow.Engine.OrderManager.State.{RoutingState, Manager}

abbrev pub is_filled : OrderStatus → Bool
is_filled OrderStatus.filled = true
is_filled _ = false

abbrev pub is_rejected : OrderStatus → Bool
is_rejected OrderStatus.rejected = true
is_rejected _ = false

abbrev pub is_cancelled : OrderStatus → Bool
is_cancelled OrderStatus.cancelled = true
is_cancelled _ = false

abbrev pub is_sequential : SplitMode → Bool
is_sequential SplitMode.sequential = true
is_sequential _ = false

abbrev pub is_partial : ParentAggregation → Bool
is_partial ParentAggregation.partial = true
is_partial _ = false

abbrev pub is_final : ParentAggregation → Bool
is_final ParentAggregation.final = true
is_final _ = false

-- `std::unordered_set::insert`
abbrev pub add_to_set : ℕ → List ℕ → List ℕ
add_to_set a [] = a ∷ []
add_to_set a (x ∷ xs) = if x == a then x ∷ xs else x ∷ add_to_set a xs

module _ {R : Type 0} where
  abbrev pub put_order : ℕ → Order R → Manager R → Manager R
  put_order id o m = record m { orders = insert id o m.orders }

  abbrev pub put_routing : ℕ → RoutingState R → Manager R → Manager R
  put_routing id s m = record m { routing_states = insert id s m.routing_states }

  -- The first lines of `handle_child_terminal`, up to the launch of the next child.
  unfoldable pub mark_terminal : ℕ → OrderStatus → RoutingState R → RoutingState R
  mark_terminal child status s = record s {
    had_reject = is_rejected status || s.had_reject;
    had_cancel = is_cancelled status || s.had_cancel;
    terminal_children = add_to_set child s.terminal_children;
  }

  -- The test under which a sequential route goes on with its next child.
  unfoldable pub wants_next : RoutingState R → Bool
  wants_next s = is_sequential s.split_mode && s.activated && not (is_empty s.pending_children)

module _ (num : Double) where
  open num use {Real, nil, add, sub, mul, div, abs, lt, le}

  -- `parent.filled_quantity >= parent.quantity` and so on: the status in which a parent ends.
  unfoldable pub final_status : Order Real → Bool → OrderStatus
  final_status parent had_reject =
      if le parent.quantity parent.filled_quantity
      then OrderStatus.filled
      else if lt nil parent.filled_quantity
      then OrderStatus.cancelled
      else if had_reject
      then OrderStatus.rejected
      else OrderStatus.cancelled

  -- `parent.filled_quantity = ...; parent.avg_fill_price = ...;`
  abbrev pub copy_fills : RoutingState Real → Order Real → Order Real
  copy_fills s parent = record parent {
    filled_quantity = s.filled_quantity;
    avg_fill_price = s.avg_fill_price;
  }

  unfoldable pub is_settled : RoutingState Real → Bool
  is_settled s =
      is_empty s.pending_children
      && not (ltb (length s.terminal_children) (length s.submitted_children))

  -- A parent whose children have all ended, in its final state.
  unfoldable pub finished_parent : RoutingState Real → ℤ → Order Real → Order Real
  unfolding final_status
  finished_parent s timestamp parent =
      let p = if is_final s.aggregation then copy_fills s parent else parent in
      record p { status = final_status p s.had_reject; updated_at = timestamp }

  unfoldable pub finalize_parent :
      ℕ → ℤ → RoutingState Real → Order Real → Manager Real → List (Order Real) × Manager Real
  unfolding finished_parent
  finalize_parent parent_id timestamp s parent m =
      let p = finished_parent s timestamp parent in (p ∷ [], put_order parent_id p m)

  unfoldable pub finalize_settled :
      ℕ
      → ℤ
      → RoutingState Real
      → Option (Order Real)
      → Manager Real
      → List (Order Real) × Manager Real
  unfolding finalize_parent
  finalize_settled parent_id timestamp s none m = ([], m)
  finalize_settled parent_id timestamp s (some parent) m =
      finalize_parent parent_id timestamp s parent m

  unfoldable pub finalize_parent_if_complete :
      ℕ → ℤ → Manager Real → List (Order Real) × Manager Real
  unfolding finalize_settled is_settled
  finalize_parent_if_complete parent_id timestamp m = elim (lookup parent_id m.routing_states) [
    | none ↦ ([], m)
    | some s ↦
        if is_settled s
        then finalize_settled parent_id timestamp s (lookup parent_id m.orders) m
        else ([], m)
  ]

  -- `remaining` of `handle_child_terminal`
  unfoldable pub remaining_quantity : RoutingState Real → Option (Order Real) → Real
  remaining_quantity s none = nil
  remaining_quantity s (some parent) = sub parent.quantity s.filled_quantity

  -- `if (next.quantity > remaining) next.quantity = remaining;`
  unfoldable pub clip : Real → Order Real → Order Real
  clip remaining next =
      if lt remaining next.quantity then record next { quantity = remaining } else next

  -- The next child and the state without it; no child, and none pending, if nothing remains.
  unfoldable pub take_next :
      Real → List (Order Real) → RoutingState Real → List (Order Real) × RoutingState Real
  unfolding clip
  take_next remaining [] s = ([], s)
  take_next remaining (c ∷ cs) s =
      if lt nil remaining
      then (clip remaining c ∷ [], record s { pending_children = cs })
      else ([], record s { pending_children = [] })

  -- What `handle_child_terminal` leaves: announced parents, children to submit, and the manager.
  abbrev pub Settlement : Type 0
  Settlement = List (Order Real) × List (Order Real) × Manager Real

  unfoldable pub finish_child : ℕ → ℤ → List (Order Real) → Manager Real → Settlement
  unfolding finalize_parent_if_complete
  finish_child parent_id timestamp [] m =
      let (parents, m') = finalize_parent_if_complete parent_id timestamp m in (parents, [], m')
  finish_child parent_id timestamp (c ∷ cs) m = ([], c ∷ cs, m)

  unfoldable pub end_child : ℕ → ℤ → RoutingState Real → Manager Real → Settlement
  unfolding finish_child take_next remaining_quantity wants_next
  end_child parent_id timestamp s m =
      if wants_next s
      then (let (next, s') =
            take_next (remaining_quantity s (lookup parent_id m.orders)) s.pending_children s in
          finish_child parent_id timestamp next (put_routing parent_id s' m))
      else finish_child parent_id timestamp [] (put_routing parent_id s m)

  unfoldable pub handle_child_terminal : ℕ → ℕ → OrderStatus → ℤ → Manager Real → Settlement
  unfolding end_child mark_terminal
  handle_child_terminal parent_id child_id status timestamp m =
      elim (lookup parent_id m.routing_states) [
        | none ↦ ([], [], m)
        | some s ↦ end_child parent_id timestamp (mark_terminal child_id status s) m
      ]

  -- The fills of a parent's children, taken together.
  unfoldable pub add_fill : Fill Real → RoutingState Real → RoutingState Real
  add_fill fill s =
      let filled_abs = abs fill.quantity in
      let total_value = add (mul s.avg_fill_price s.filled_quantity) (mul fill.price filled_abs) in
      let filled = add s.filled_quantity filled_abs in
      record s {
        filled_quantity = filled;
        avg_fill_price = if lt nil filled then div total_value filled else s.avg_fill_price;
      }

  -- A parent that shows its children's fills as they come.
  unfoldable pub partial_parent : RoutingState Real → ℤ → Order Real → Order Real
  partial_parent s timestamp parent =
      let p = copy_fills s parent in
      record p {
        status =
            if le p.quantity p.filled_quantity
            then OrderStatus.filled
            else OrderStatus.partially_filled;
        updated_at = timestamp;
      }

  unfoldable pub show_fill :
      ℕ
      → ℤ
      → RoutingState Real
      → Option (Order Real)
      → Manager Real
      → List (Order Real) × Manager Real
  unfolding partial_parent
  show_fill parent_id timestamp s none m = ([], m)
  show_fill parent_id timestamp s (some parent) m =
      let p = partial_parent s timestamp parent in (p ∷ [], put_order parent_id p m)

  unfoldable pub handle_child_fill : ℕ → Fill Real → Manager Real → List (Order Real) × Manager Real
  unfolding show_fill add_fill
  handle_child_fill parent_id fill m = elim (lookup parent_id m.routing_states) [
    | none ↦ ([], m)
    | some s ↦
        let s' = add_fill fill s in
        let m' = put_routing parent_id s' m in
        if is_partial s'.aggregation
        then show_fill parent_id fill.timestamp s' (lookup parent_id m'.orders) m'
        else ([], m')
  ]
