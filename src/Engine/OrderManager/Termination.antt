-- ===== src/Engine/OrderManager/Termination.antt =====
-- The recursion between `update_order_status` and `submit_child_order` of
-- src/engine/order_manager.cpp ends: each round takes a child off a list of pending children.
use regime_flow.Engine.OrderManager.Returning.{
  submit_child_order-Returns, submit_next-Returns, Returns, Settles,
}
use regime_flow.Engine.OrderManager.Routing.{put_routing}
use regime_flow.Base.Table.{lookup}
use regime_flow.Engine.OrderManager.Operations.{
  process_fill, activate_routed_order, submit_order, after_child, record_fill, children_of,
  process_found, activate_found, take_activated, cancel_open, cancel_found, submit_activated,
  reject_parent, cancel_order, cancel_children, update_status,
}
use regime_flow.Engine.OrderManager.Validation.{validate_order}
use regime_flow.Engine.OrderManager.Pending.{pending_total-insert, set_status-Hands, Hands, queued}
use regime_flow.Engine.OrderManager.Frame.{Frame-self, Frame-trans, Frame}
use regime_flow.Engine.Order.{RoutingPlan, Fill, SplitMode, Order, OrderStatus}
use regime_flow.Engine.OrderManager.Status.{
  route_order, set_status, update_order_status, update_found, enroll, run_pre_submit, admit,
  submit_order_internal, submit_next, submit_child_order, admit_prepared, admit_checked,
  finish_submit, Updater,
}
use regime_flow.Engine.OrderManager.State.{RoutingState, Manager}
use regime_flow.Base.Int.{ℤ}
use regime_flow.Base.Double.{Double}
use regime_flow.Result.{Error, Void, Result, err, ok}
use regime_flow.Base.{
  ◌≤◌, length, suc, zero, ◌∷◌, arith, ◌≡◌, ◌<◌, is_some, List, Option, ℕ, [], refl, true, some,
  none,
}

module _ (num : Double) (clock : ℕ → ℤ) where
  open num use {Real}

  update_found-Returns :
      (k : ℕ) (update : Updater num clock)
      → Settles num clock k update
      → (id : ℕ) (status : OrderStatus) (o : Option (Order Real)) (m : Manager Real)
      → queued num m < suc k
      → Returns num clock m (update_found num clock update id status o m)
  unfolding update_found
  update_found-Returns k update settles id status none m h = (refl, Frame-self m)
  update_found-Returns k update settles id status (some o) m h =
      let (next, m') = set_status num clock id status o m in
      go next m' (set_status-Hands num clock id status o m)
    where
      go :
          (next : List (Order Real)) (m' : Manager Real)
          → Hands num clock m (next, m')
          → Returns num clock m (submit_next num clock update next m')
      go [] m' s = (unfold submit_next in refl, unfold submit_next in s.0)
      go (c ∷ cs) m' s =
          let r = submit_next-Returns num clock k update settles (c ∷ cs) m' (omega (arith, s.1)) in
          (r.0, Frame-trans s.0 r.1)

  pub update_order_status-Settles :
      (fuel : ℕ) → Settles num clock fuel (update_order_status num clock fuel)
  unfolding update_order_status
  update_order_status-Settles zero id status m h = absurd (omega arith)
  update_order_status-Settles (suc fuel) id status m h =
      update_found-Returns fuel (update_order_status num clock fuel)
        (update_order_status-Settles fuel) id status (lookup id m.orders) m h

  -- With the fuel that it is given, a status update always has a result.
  pub update_status-Returns :
      (id : ℕ) (status : OrderStatus) (m : Manager Real)
      → Returns num clock m (update_status num clock id status m)
  unfolding update_status
  update_status-Returns id status m =
      update_order_status-Settles (suc (queued num m)) id status m (omega arith)

  update_status-Settles : (k : ℕ) → Settles num clock k (update_status num clock)
  update_status-Settles k id status m h = update_status-Returns id status m

  cancel_children-Returns :
      (cs : List ℕ) (m : Manager Real) → Returns num clock m (cancel_children num clock cs m)
  unfolding cancel_children
  cancel_children-Returns [] m = (refl, Frame-self m)
  cancel_children-Returns (c ∷ cs) m =
      let first = update_status-Returns c OrderStatus.cancelled m in
      let rest = cancel_children-Returns cs (update_status num clock c OrderStatus.cancelled m).1 in
      ground (arith, first, rest)

  cancel_open-Frame :
      (id : ℕ) (o : Order Real) (m : Manager Real) → Frame m (cancel_open num clock id o m)
  unfolding cancel_open
  cancel_open-Frame id o m = ground arith

  cancel_found-Returns :
      (id : ℕ) (o : Option (Order Real)) (m : Manager Real)
      → Returns num clock m (cancel_found num clock id o m)
  unfolding cancel_found
  cancel_found-Returns id none m = (refl, Frame-self m)
  cancel_found-Returns id (some o) m =
      let f = cancel_open-Frame id o m in
      let m' = cancel_open num clock id o m in
      let r = cancel_children-Returns (children_of (lookup id m.routing_states)) m' in
      ground (arith, f, r)

  reject_parent-Returns :
      (id : ℕ) (e : Error) (m : Manager Real) → Returns num clock m (reject_parent num clock id e m)
  unfolding reject_parent
  reject_parent-Returns id e m = ground (arith, update_status-Returns id OrderStatus.rejected m)

  after_child-Returns :
      (id : ℕ) (m : Manager Real) (done : Option (Result Void)) (m' : Manager Real)
      (rest : Option (Result Void) × Manager Real)
      → Returns num clock m (done, m')
      → Returns num clock m' rest
      → Returns num clock m (after_child num clock id done m' rest)
  unfolding after_child
  after_child-Returns id m none m' rest h k = h
  after_child-Returns id m (some (ok _)) m' rest h k = (k.0, Frame-trans h.1 k.1)
  after_child-Returns id m (some (err e)) m' rest h k =
      let r = reject_parent-Returns id e m' in (r.0, Frame-trans h.1 r.1)

  submit_activated-Returns :
      (id : ℕ) (cs : List (Order Real)) (m : Manager Real)
      → Returns num clock m (submit_activated num clock id cs m)
  unfolding submit_activated
  submit_activated-Returns id [] m = (refl, Frame-self m)
  submit_activated-Returns id (c ∷ cs) m =
      let (done, m') = submit_child_order num clock (update_status num clock) c id m in
      let first =
        submit_child_order-Returns num clock (suc (queued num m)) (update_status num clock)
          (update_status-Settles (suc (queued num m))) c id m (omega arith) in
      after_child-Returns id m done m' (submit_activated num clock id cs m') first
        (submit_activated-Returns id cs m')

  take_activated_fewer :
      (mode : SplitMode) (cs : List (Order Real)) → length (take_activated mode cs).1 ≤ length cs
  unfolding take_activated
  take_activated_fewer SplitMode.none cs = omega arith
  take_activated_fewer SplitMode.parallel cs = omega arith
  take_activated_fewer SplitMode.sequential [] = omega arith
  take_activated_fewer SplitMode.sequential (c ∷ cs) = omega arith

  activate_found-Returns :
      (id : ℕ) (s : Option (RoutingState Real)) (m : Manager Real)
      → lookup id m.routing_states ≡ s
      → Returns num clock m (activate_found num clock id s m)
  unfolding activate_found
  activate_found-Returns id none m e = (refl, Frame-self m)
  activate_found-Returns id (some s) m e =
      let (to_submit, rest) = take_activated s.split_mode s.pending_children in
      let s' = record s { activated = true; pending_children = rest } in
      let m' = put_routing id s' m in
      ground (
        arith,
        take_activated_fewer s.split_mode s.pending_children,
        pending_total-insert id s s' m.routing_states e,
        submit_activated-Returns id to_submit m',
      )

  process_found-Returns :
      (f : Fill Real) (o : Option (Order Real)) (m : Manager Real)
      → is_some (process_found num clock f o m).0 ≡ true
  unfolding process_found
  process_found-Returns f none m = refl
  process_found-Returns f (some o) m =
      let (next, m') = record_fill num clock f o m in
      (submit_next-Returns num clock (suc (queued num m')) (update_status num clock)
        (update_status-Settles (suc (queued num m'))) next m' (omega arith)).0

  -- What a finished submission leaves: a result.
  submits :
      (plan : Option (RoutingPlan Real)) (v : Result Void) (o : Order Real) (m : Manager Real)
      → is_some (admit_checked num clock (update_status num clock) plan o v m).0 ≡ true
  unfolding admit_checked finish_submit
  submits plan (err e) o m = refl
  submits plan (ok _) o m =
      let (id, m') = enroll num clock plan o m in
      ground (arith, update_status-Returns id OrderStatus.pending m')

  submits_prepared :
      (plan : Option (RoutingPlan Real)) (o : Result (Order Real)) (m : Manager Real)
      → is_some (admit_prepared num clock (update_status num clock) plan o m).0 ≡ true
  unfolding admit_prepared
  submits_prepared plan (err e) m = refl
  submits_prepared plan (ok o) m = submits plan (validate_order num o) o m

  -- Every method that may start the recursion returns, in every state and for every argument: it needs no
  -- more rounds than there are pending children.
  pub methods_return :
      (o : Order Real) (id : ℕ) (status : OrderStatus) (f : Fill Real) (m : Manager Real)
      → (is_some (submit_order num clock o m).0 ≡ true)
        × (is_some (update_status num clock id status m).0 ≡ true)
        × (is_some (cancel_order num clock id m).0 ≡ true)
        × (is_some (activate_routed_order num clock id m).0 ≡ true)
        × (is_some (process_fill num clock f m).0 ≡ true)
  unfolding submit_order submit_order_internal admit cancel_order activate_routed_order process_fill
  methods_return o id status f m =
      let (plan, o') = route_order num clock m.router o in
      (
        submits_prepared plan (run_pre_submit num clock m.pre_submit_callbacks o') m,
        (update_status-Returns id status m).0,
        (cancel_found-Returns id (lookup id m.orders) m).0,
        (activate_found-Returns id (lookup id m.routing_states) m refl).0,
        process_found-Returns f (lookup f.order_id m.orders) m,
      )
