-- ===== src/Engine/OrderManager/Status.antt =====
-- The operations of src/engine/order_manager.cpp that end or start an order: `update_order_status`,
-- `submit_order_internal`, `submit_child_order` and `submit_order`.
--
-- `update_order_status` may submit a parent's next child, which updates that child's status, and so on.
-- Each round takes a child off a list of pending children, so fuel above their number is enough.
use regime_flow.Base.{
  ℕ, zero, suc, Bool, true, false, Option, none, some, List, [], ◌∷◌, ◌++◌, ◌==◌, if◌then◌else◌,
  is_empty, map,
}
use regime_flow.Base.Int.{ℤ, pos, eqb_ℤ}
use regime_flow.Base.Table.{lookup, insert}
use regime_flow.Base.Word.{u64}
use regime_flow.Base.Double.{Double}
use regime_flow.Result.{Result, ok, err, Void, fail, ErrorCode}
use regime_flow.Engine.Order.{
  Order, OrderStatus, SplitMode, ParentAggregation, RoutingContext, RoutingPlan,
}
use regime_flow.Engine.OrderManager.State.{
  RoutingState, Manager, Router, Action, notify_order, notify_orders, read_clock,
}
use regime_flow.Engine.OrderManager.Routing.{
  Settlement, handle_child_terminal, put_order, put_routing,
}
use regime_flow.Engine.OrderManager.Validation.{validate_order}

module _ (num : Double) (clock : ℕ → ℤ) where
  open num use {Real, nil}

  abbrev pub not_found : {A : Type 0} → Action Real A
  not_found m = (some (fail ErrorCode.not_found "Order not found"), m)

  -- The announcements of `update_order_status`, after its locked part.
  unfoldable pub announce : Order Real → Settlement num → List (Order Real) × Manager Real
  announce updated (parents, next, m) = (next, notify_orders parents (notify_order updated m))

  unfoldable pub end_if_child : ℕ → OrderStatus → ℤ → Option ℕ → Manager Real → Settlement num
  end_if_child id status timestamp none m = ([], [], m)
  end_if_child id status timestamp (some parent_id) m =
      handle_child_terminal num parent_id id status timestamp m

  -- `update_order_status` up to its last loop, on the order that was found. It returns the children
  -- that the loop is to submit.
  unfoldable pub set_status :
      ℕ → OrderStatus → Order Real → Manager Real → List (Order Real) × Manager Real
  unfolding announce end_if_child read_clock
  set_status id status o m =
      let (now, m1) = read_clock clock m in
      let updated = record o { status = status; updated_at = now } in
      announce updated
        (end_if_child id status now (lookup id m1.parent_by_child) (put_order id updated m1))

  -- `for (const auto& cb : pre_submit) ...`: each callback may change the order or refuse it.
  unfoldable pub run_pre_submit :
      List (Order Real → Result (Order Real)) → Order Real → Result (Order Real)
  run_pre_submit [] o = ok o
  run_pre_submit (cb ∷ cbs) o = elim (cb o) [ err e ↦ err e | ok o' ↦ run_pre_submit cbs o' ]

  -- `if (order.id == 0) order.id = next_order_id_++;`
  unfoldable pub assign_id : Order Real → Manager Real → Order Real × Manager Real
  assign_id o m =
      if o.id == 0
      then (
        record o { id = m.next_order_id },
        record m { next_order_id = u64 (suc m.next_order_id) },
      )
      else (o, m)

  -- `created_at`, `updated_at` and `status` of a new order.
  unfoldable pub stamp : Order Real → Manager Real → Order Real × Manager Real
  unfolding read_clock
  stamp o m =
      if eqb_ℤ o.created_at (pos 0)
      then (let (now, m') = read_clock clock m in
          (record o { created_at = now; updated_at = now; status = OrderStatus.created }, m'))
      else (record o { updated_at = o.created_at; status = OrderStatus.created }, m)

  -- The routing state of a new parent.
  unfoldable pub new_routing : ℕ → RoutingPlan Real → RoutingState Real
  new_routing parent_id plan = record {
    split_mode = plan.split_mode;
    aggregation = plan.parent_aggregation;
    activated = false;
    filled_quantity = nil;
    avg_fill_price = nil;
    had_reject = false;
    had_cancel = false;
    pending_children =
        map (λ (c : Order Real). record c { parent_id = parent_id; is_parent = false })
          plan.children;
    submitted_children = [];
    terminal_children = [];
  }

  -- `routing_states_[order.id] = std::move(state);`, if the plan splits the order
  unfoldable pub add_routing : ℕ → Option (RoutingPlan Real) → Manager Real → Manager Real
  unfolding new_routing
  add_routing id none m = m
  add_routing id (some plan) m = put_routing id (new_routing id plan) m

  -- The locked parts of `submit_order_internal` after validation, with the callbacks that follow.
  unfoldable pub enroll : Option (RoutingPlan Real) → Order Real → Manager Real → ℕ × Manager Real
  unfolding assign_id stamp add_routing notify_order
  enroll plan o m =
      let (o1, m1) = assign_id o m in
      let (o2, m2) = stamp o1 m1 in
      (o2.id, notify_order o2 (add_routing o2.id plan (put_order o2.id o2 m2)))

  -- What the recursion of the next definitions calls: `update_order_status`.
  abbrev pub Updater : Type 0
  Updater = ℕ → OrderStatus → Action Real Void

  unfoldable pub finish_submit : Updater → ℕ × Manager Real → Action Real ℕ
  finish_submit update (id, m') m =
      let (done, m'') = update id OrderStatus.pending m' in
      (elim done [ none ↦ none | some _ ↦ some (ok id) ], m'')

  unfoldable pub admit_checked :
      Updater → Option (RoutingPlan Real) → Order Real → Result Void → Action Real ℕ
  unfolding finish_submit enroll
  admit_checked update plan o (err e) m = (some (err e), m)
  admit_checked update plan o (ok _) m = finish_submit update (enroll plan o m) m

  unfoldable pub admit_prepared :
      Updater → Option (RoutingPlan Real) → Result (Order Real) → Action Real ℕ
  unfolding admit_checked
  admit_prepared update plan (err e) m = (some (err e), m)
  admit_prepared update plan (ok o) m = admit_checked update plan o (validate_order num o) m

  -- `submit_order_internal` after the routing of its first lines.
  unfoldable pub admit : Updater → Option (RoutingPlan Real) → Order Real → Action Real ℕ
  unfolding admit_prepared run_pre_submit
  admit update plan o m = admit_prepared update plan (run_pre_submit m.pre_submit_callbacks o) m

  unfoldable pub empty_context : RoutingContext Real
  empty_context = record { bid = none; ask = none; last = none }

  unfoldable pub context_of :
      Option (Order Real → RoutingContext Real) → Order Real → RoutingContext Real
  unfolding empty_context
  context_of none o = empty_context
  context_of (some provider) o = provider o

  -- `has_plan`, with the order that is submitted
  unfoldable pub plan_order : RoutingPlan Real → Option (RoutingPlan Real) × Order Real
  plan_order plan =
      if is_empty plan.children
      then (none, plan.routed_order)
      else (some plan, record plan.routed_order { is_parent = true })

  -- The routing at the start of `submit_order_internal`.
  unfoldable pub route_order :
      Option (Router Real) → Order Real → Option (RoutingPlan Real) × Order Real
  unfolding plan_order context_of
  route_order none o = (none, o)
  route_order (some r) o = plan_order (r.route o (context_of r.context o))

  unfoldable pub submit_order_internal : Updater → Bool → Order Real → Action Real ℕ
  unfolding admit route_order
  submit_order_internal update true o m =
      let (plan, o') = route_order m.router o in admit update plan o' m
  submit_order_internal update false o m = admit update none o m

  unfoldable pub blank_routing : RoutingState Real
  blank_routing = record {
    split_mode = SplitMode.none;
    aggregation = ParentAggregation.partial;
    activated = false;
    filled_quantity = nil;
    avg_fill_price = nil;
    had_reject = false;
    had_cancel = false;
    pending_children = [];
    submitted_children = [];
    terminal_children = [];
  }

  -- `routing_states_[parent_id].submitted_children.push_back(child_id);`
  unfoldable pub push_submitted : ℕ → Option (RoutingState Real) → RoutingState Real
  unfolding blank_routing
  push_submitted child none = record blank_routing { submitted_children = child ∷ [] }
  push_submitted child (some s) = record s {
    submitted_children = s.submitted_children ++ child ∷ [];
  }

  -- The last lines of `submit_child_order`: the child is linked to its parent.
  unfoldable pub adopt : ℕ → ℕ → Manager Real → Manager Real
  unfolding push_submitted
  adopt child parent_id m = record m {
    parent_by_child = insert child parent_id m.parent_by_child;
    routing_states =
        insert parent_id (push_submitted child (lookup parent_id m.routing_states))
          m.routing_states;
  }

  unfoldable pub finish_child_submit :
      ℕ → Option (Result ℕ) × Manager Real → Option (Result Void) × Manager Real
  unfolding adopt
  finish_child_submit parent_id (none, m) = (none, m)
  finish_child_submit parent_id (some (err e), m) = (some (err e), m)
  finish_child_submit parent_id (some (ok child), m) = (some (ok tt), adopt child parent_id m)

  unfoldable pub submit_child_order : Updater → Order Real → ℕ → Action Real Void
  unfolding submit_order_internal finish_child_submit
  submit_child_order update child parent_id m =
      finish_child_submit parent_id
        (submit_order_internal update false (record child { parent_id = parent_id }) m)

  -- `for (auto& child : next_children) submit_child_order(child, child.parent_id);`
  unfoldable pub submit_next : Updater → List (Order Real) → Action Real Void
  unfolding submit_child_order
  submit_next update [] m = (some (ok tt), m)
  submit_next update (c ∷ cs) m =
      let (done, m') = submit_child_order update c c.parent_id m in
      let rest = submit_next update cs m' in elim done [ none ↦ (none, m') | some _ ↦ rest ]

  unfoldable pub update_found : Updater → ℕ → OrderStatus → Option (Order Real) → Action Real Void
  unfolding set_status submit_next
  update_found update id status none m = not_found m
  update_found update id status (some o) m =
      let (next, m') = set_status id status o m in submit_next update next m'

  unfoldable pub update_order_status : ℕ → Updater
  unfolding update_found
  update_order_status zero id status m = (none, m)
  update_order_status (suc fuel) id status m =
      update_found (update_order_status fuel) id status (lookup id m.orders) m
