-- ===== src/Engine/OrderManager/Operations.antt =====
-- The public methods of src/engine/order_manager.cpp.
use regime_flow.Base.Word.{u64}
use regime_flow.Engine.OrderManager.Routing.{
  is_filled, Settlement, put_routing, put_order, handle_child_terminal, handle_child_fill,
}
use regime_flow.Engine.OrderManager.Validation.{validate_order, is_open_status}
use regime_flow.Base.{
  none, ◌==◌, false, is_some, ◌++◌, Bool, if◌then◌else◌, some, List, value_or, ℕ, suc, true, Option,
  [], ◌∷◌,
}
use regime_flow.Base.Int.{pos, eqb_ℤ, ℤ}
use regime_flow.Base.Table.{insert, lookup}
use regime_flow.Base.Double.{Double}
use regime_flow.Result.{err, Result, ErrorCode, fail, ok, Error, Void}
use regime_flow.Engine.Order.{Fill, SplitMode, Order, OrderStatus, TimeInForce}
use regime_flow.Engine.OrderManager.State.{
  pending_total, notify_orders, Manager, notify_order, notify_fill, read_clock, RoutingState,
  Action,
}
use regime_flow.Engine.OrderManager.Status.{
  submit_next, submit_child_order, update_order_status, submit_order_internal,
}

pub record OrderModification (R : Type 0) : Type 0 where
  pub quantity : Option R
  pub limit_price : Option R
  pub stop_price : Option R
  pub tif : Option TimeInForce
  pub expire_at : Option ℤ

abbrev pub is_unsplit : SplitMode → Bool
is_unsplit SplitMode.none = true
is_unsplit _ = false

module _ {R : Type 0} where
  -- `if (mod.quantity) it->second.quantity = *mod.quantity;` and so on
  unfoldable pub apply_modification : OrderModification R → Order R → Order R
  apply_modification mod' o = record o {
    quantity = value_or mod'.quantity o.quantity;
    limit_price = value_or mod'.limit_price o.limit_price;
    stop_price = value_or mod'.stop_price o.stop_price;
    tif = value_or mod'.tif o.tif;
    expire_at = if is_some mod'.expire_at then mod'.expire_at else o.expire_at;
  }

  -- `route_it->second.submitted_children`
  unfoldable pub children_of : Option (RoutingState R) → List ℕ
  children_of none = []
  children_of (some s) = s.submitted_children

  -- `to_submit` of `activate_routed_order`, and the state without it
  unfoldable pub take_activated : SplitMode → List (Order R) → List (Order R) × List (Order R)
  take_activated SplitMode.none cs = ([], cs)
  take_activated SplitMode.parallel cs = (cs, [])
  take_activated SplitMode.sequential [] = ([], [])
  take_activated SplitMode.sequential (c ∷ cs) = (c ∷ [], cs)

module _ (num : Double) (clock : ℕ → ℤ) where
  open num use {Real, nil, add, sub, mul, div, abs, lt, le}

  -- The recursion of `update_order_status` with fuel that suffices.
  unfoldable pub update_status : ℕ → OrderStatus → Action Real Void
  unfolding pending_total update_order_status
  update_status id status m =
      update_order_status num clock (suc (pending_total m.routing_states)) id status m

  unfoldable pub submit_order : Order Real → Action Real ℕ
  unfolding submit_order_internal update_status
  submit_order o m = submit_order_internal num clock update_status true o m

  unfoldable pub cancel_children : List ℕ → Action Real Void
  unfolding update_status
  cancel_children [] m = (some (ok tt), m)
  cancel_children (c ∷ cs) m =
      let (done, m') = update_status c OrderStatus.cancelled m in
      let rest = cancel_children cs m' in elim done [ none ↦ (none, m') | some _ ↦ rest ]

  -- The locked part of `cancel_order` and its callbacks.
  unfoldable pub cancel_open : ℕ → Order Real → Manager Real → Manager Real
  unfolding read_clock notify_order
  cancel_open id o m =
      let (now, m1) = read_clock clock m in
      let updated = record o { status = OrderStatus.cancelled; updated_at = now } in
      notify_order updated (put_order id updated m1)

  unfoldable pub cancel_found : ℕ → Option (Order Real) → Action Real Void
  unfolding cancel_open cancel_children children_of is_open_status
  cancel_found id none m = (some (fail ErrorCode.not_found "Order not found"), m)
  cancel_found id (some o) m =
      if is_open_status o.status
      then cancel_children (children_of (lookup id m.routing_states)) (cancel_open id o m)
      else (some (fail ErrorCode.invalid_state "Order not open"), m)

  unfoldable pub cancel_order : ℕ → Action Real Void
  unfolding cancel_found
  cancel_order id m = cancel_found id (lookup id m.orders) m

  -- The order is changed in place before it is validated, and stays changed if it is refused.
  unfoldable pub modify_checked : ℕ → Order Real → Result Void → Action Real Void
  unfolding read_clock notify_order
  modify_checked id o (err e) m = (some (err e), put_order id o m)
  modify_checked id o (ok _) m =
      let (now, m1) = read_clock clock m in
      let updated = record o { updated_at = now } in
      (some (ok tt), notify_order updated (put_order id updated m1))

  unfoldable pub modify_found : ℕ → OrderModification Real → Option (Order Real) → Action Real Void
  unfolding modify_checked apply_modification is_open_status
  modify_found id mod' none m = (some (fail ErrorCode.not_found "Order not found"), m)
  modify_found id mod' (some o) m =
      if is_open_status o.status
      then (let o' = apply_modification mod' o in modify_checked id o' (validate_order num o') m)
      else (some (fail ErrorCode.invalid_state "Order not open"), m)

  unfoldable pub modify_order : ℕ → OrderModification Real → Action Real Void
  unfolding modify_found
  modify_order id mod' m = modify_found id mod' (lookup id m.orders) m

  -- `update_order_status(id, OrderStatus::Rejected); return res;`
  unfoldable pub reject_parent : ℕ → Error → Action Real Void
  unfolding update_status
  reject_parent id e m =
      let (done, m') = update_status id OrderStatus.rejected m in
      (elim done [ none ↦ none | some _ ↦ some (err e) ], m')

  -- What the loop of `activate_routed_order` does after one child: stop at an error, or go on.
  unfoldable pub after_child :
      ℕ
      → Option (Result Void)
      → Manager Real
      → Option (Result Void) × Manager Real
      → Option (Result Void) × Manager Real
  unfolding reject_parent
  after_child id none m rest = (none, m)
  after_child id (some (ok _)) m rest = rest
  after_child id (some (err e)) m rest = reject_parent id e m

  unfoldable pub submit_activated : ℕ → List (Order Real) → Action Real Void
  unfolding submit_child_order update_status after_child
  submit_activated id [] m = (some (ok tt), m)
  submit_activated id (c ∷ cs) m =
      let (done, m') = submit_child_order num clock update_status c id m in
      after_child id done m' (submit_activated id cs m')

  unfoldable pub activate_found : ℕ → Option (RoutingState Real) → Action Real Void
  unfolding submit_activated take_activated
  activate_found id none m = (some (ok tt), m)
  activate_found id (some s) m =
      if s.activated
      then (some (ok tt), m)
      else (let (to_submit, rest) = take_activated s.split_mode s.pending_children in
          let m' = put_routing id (record s { activated = true; pending_children = rest }) m in
          if is_unsplit s.split_mode then (some (ok tt), m') else submit_activated id to_submit m')

  unfoldable pub activate_routed_order : ℕ → Action Real Void
  unfolding activate_found
  activate_routed_order id m = activate_found id (lookup id m.routing_states) m

  -- `if (fill.id == 0) fill.id = next_fill_id_++;`
  unfoldable pub assign_fill_id : Fill Real → Manager Real → Fill Real × Manager Real
  assign_fill_id f m =
      if f.id == 0
      then (record f { id = m.next_fill_id }, record m { next_fill_id = u64 (suc m.next_fill_id) })
      else (f, m)

  -- `if (fill.timestamp.microseconds() == 0) fill.timestamp = Timestamp::now();`
  unfoldable pub stamp_fill : Fill Real → Manager Real → Fill Real × Manager Real
  unfolding read_clock
  stamp_fill f m =
      if eqb_ℤ f.timestamp (pos 0)
      then (let (now, m') = read_clock clock m in (record f { timestamp = now }, m'))
      else (f, m)

  -- The order that a fill leaves.
  unfoldable pub fill_order : Fill Real → Order Real → Order Real
  fill_order f o =
      let filled_abs = abs f.quantity in
      let filled = add o.filled_quantity filled_abs in
      let total_value =
        add (mul o.avg_fill_price (sub filled filled_abs)) (mul f.price filled_abs) in
      record o {
        filled_quantity = filled;
        avg_fill_price = if lt nil filled then div total_value filled else o.avg_fill_price;
        status = if le o.quantity filled then OrderStatus.filled else OrderStatus.partially_filled;
        updated_at = f.timestamp;
      }

  -- `order.status` after `handle_child_fill`, read through the reference into the map
  abbrev pub status_of : Option (Order Real) → OrderStatus
  status_of none = OrderStatus.invalid
  status_of (some o) = o.status

  -- The parent's part of `process_fill`: the parents to announce and the children to submit.
  unfoldable pub fill_parent : Fill Real → Option ℕ → Manager Real → Settlement num
  unfolding handle_child_fill handle_child_terminal
  fill_parent f none m = ([], [], m)
  fill_parent f (some parent_id) m =
      let (parents, m1) = handle_child_fill num parent_id f m in
      let status = status_of (lookup f.order_id m1.orders) in
      if is_filled status
      then (let (parents', next, m2) =
            handle_child_terminal num parent_id f.order_id status f.timestamp m1 in
          (parents ++ parents', next, m2))
      else (parents, [], m1)

  unfoldable pub announce_fill :
      Fill Real → Order Real → Settlement num → List (Order Real) × Manager Real
  unfolding notify_fill notify_orders
  announce_fill f updated (parents, next, m) =
      (next, notify_orders parents (notify_order updated (notify_fill f m)))

  -- `fills_[fill.order_id].push_back(fill);`
  unfoldable pub push_fill : Fill Real → Option (List (Fill Real)) → List (Fill Real)
  push_fill f none = f ∷ []
  push_fill f (some fs) = fs ++ f ∷ []

  -- The locked part of `process_fill` and its callbacks, on the order that was found.
  unfoldable pub record_fill :
      Fill Real → Order Real → Manager Real → List (Order Real) × Manager Real
  unfolding assign_fill_id stamp_fill fill_order push_fill fill_parent announce_fill
  record_fill f o m =
      let (f1, m1) = assign_fill_id f m in
      let (f2, m2) = stamp_fill f1 m1 in
      let updated = fill_order f2 o in
      let m3 = put_order f2.order_id updated m2 in
      let m4 = record m3 {
        fills = insert f2.order_id (push_fill f2 (lookup f2.order_id m3.fills)) m3.fills;
      } in
      announce_fill f2 updated (fill_parent f2 (lookup f2.order_id m4.parent_by_child) m4)

  unfoldable pub process_found : Fill Real → Option (Order Real) → Action Real Void
  unfolding record_fill submit_next update_status
  process_found f none m = (some (ok tt), m)
  process_found f (some o) m =
      let (next, m') = record_fill f o m in submit_next num clock update_status next m'

  unfoldable pub process_fill : Fill Real → Action Real Void
  unfolding process_found
  process_fill f m = process_found f (lookup f.order_id m.orders) m
