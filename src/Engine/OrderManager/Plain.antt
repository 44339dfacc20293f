-- ===== src/Engine/OrderManager/Plain.antt =====
-- Orders that are no children of a route: what one status update, submission, cancellation, change or
-- fill does (src/engine/order_manager.cpp).
use regime_flow.Engine.OrderManager.Validation.{validate_order}
use regime_flow.Base.Table.{insert, lookup}
use regime_flow.Engine.OrderManager.State.{pending_total, notify_orders, notify_order, Manager}
use regime_flow.Engine.Order.{RoutingPlan, Order, OrderStatus}
use regime_flow.Engine.OrderManager.Status.{
  update_order_status, Updater, enroll, announce, run_pre_submit, end_if_child, route_order,
  admit_prepared, admit_checked, finish_submit, update_found, admit, submit_order_internal,
  set_status,
}
use regime_flow.Engine.OrderManager.Operations.{submit_order, update_status}
use regime_flow.Base.Int.{ℤ}
use regime_flow.Base.Double.{Double}
use regime_flow.Result.{Void, Result, Error, err, ok}
use regime_flow.Base.{sym, ap, Option, [], arith, ◌≡◌, ℕ, suc, some, none}

module _ (num : Double) (clock : ℕ → ℤ) where
  open num use {Real}

  set_status-plain :
      (id : ℕ) (status : OrderStatus) (o : Order Real) (m : Manager Real)
      → lookup id m.parent_by_child ≡ none
      → let updated = record o { status = status; updated_at = clock m.clock_reads } in
        set_status num clock id status o m ≡ (
          [],
          notify_order updated
              (record m { clock_reads = suc m.clock_reads; orders = insert id updated m.orders }),
        )
  unfolding set_status notify_orders
  set_status-plain id status o m p = rw (p, set_status, end_if_child, announce)

  update_found-plain :
      (update : Updater num clock) (id : ℕ) (status : OrderStatus) (o : Order Real)
      (m : Manager Real)
      → lookup id m.parent_by_child ≡ none
      → let updated = record o { status = status; updated_at = clock m.clock_reads } in
        update_found num clock update id status (some o) m ≡ (
          some (ok tt),
          notify_order updated
              (record m { clock_reads = suc m.clock_reads; orders = insert id updated m.orders }),
        )
  unfolding update_found notify_orders insert
  update_found-plain update id status o m p =
      rw (p, update_found, set_status, end_if_child, announce)

  -- A status update of an order that is no routed child touches that order alone.
  pub update_status-plain :
      (id : ℕ) (status : OrderStatus) (o : Order Real) (m : Manager Real)
      → lookup id m.orders ≡ some o
      → lookup id m.parent_by_child ≡ none
      → let updated = record o { status = status; updated_at = clock m.clock_reads } in
        update_status num clock id status m ≡ (
          some (ok tt),
          notify_order updated
              (record m { clock_reads = suc m.clock_reads; orders = insert id updated m.orders }),
        )
  unfolding update_status
  update_status-plain id status o m e p = rw e (
      update_found-plain (update_order_status num clock (pending_total m.routing_states)) id status
        o m p)

  submit_no_error :
      (id : ℕ) (m' m n : Manager Real) (e : Error)
      → ¬ (finish_submit num clock (update_status num clock) (id, m') m ≡ (some (err e), n))
  unfolding finish_submit
  submit_no_error id m' m n e h = ground arith

  refused_checked :
      (plan : Option (RoutingPlan Real)) (v : Result Void) (o : Order Real) (m n : Manager Real)
      (e : Error)
      → admit_checked num clock (update_status num clock) plan o v m ≡ (some (err e), n)
      → n ≡ m
  unfolding admit_checked
  refused_checked plan (err x) o m n e h =
      ap (λ (r : Option (Result ℕ) × Manager Real). r.1) (sym h)
  refused_checked plan (ok _) o m n e h =
      absurd (submit_no_error (enroll num clock plan o m).0 (enroll num clock plan o m).1 m n e h)

  refused_prepared :
      (plan : Option (RoutingPlan Real)) (o : Result (Order Real)) (m n : Manager Real) (e : Error)
      → admit_prepared num clock (update_status num clock) plan o m ≡ (some (err e), n)
      → n ≡ m
  unfolding admit_prepared
  refused_prepared plan (err x) m n e h = ap (λ (r : Option (Result ℕ) × Manager Real). r.1) (sym h)
  refused_prepared plan (ok o) m n e h = refused_checked plan (validate_order num o) o m n e h

  -- A refused submission leaves the manager as it was: no identifier is used up, nothing is stored and
  -- nobody is told.
  pub submit_order-refused :
      (o : Order Real) (m : Manager Real) (e : Error)
      → (submit_order num clock o m).0 ≡ some (err e)
      → (submit_order num clock o m).1 ≡ m
  unfolding submit_order submit_order_internal admit
  submit_order-refused o m e h =
      let (plan, o') = route_order num clock m.router o in
      let n = (submit_order num clock o m).1 in
      refused_prepared plan (run_pre_submit num clock m.pre_submit_callbacks o') m n e
        (ap (λ (r : Option (Result ℕ)). (r, n)) h)
