-- ===== src/Engine/OrderManager/Submission.antt =====
-- What a successful `submit_order` of src/engine/order_manager.cpp does, when no router is set.
use regime_flow.Engine.OrderManager.Plain.{update_status-plain}
use regime_flow.Engine.OrderManager.Validation.{validate_order}
use regime_flow.Base.Word.{u64}
use regime_flow.Base.Table.{lookup-insert, lookup, insert}
use regime_flow.Engine.OrderManager.State.{Router, notify_order, order_update, Manager}
use regime_flow.Engine.OrderManager.Operations.{update_status, submit_order}
use regime_flow.Engine.OrderManager.Status.{
  admit_checked, admit_prepared, route_order, finish_submit, run_pre_submit, admit,
  submit_order_internal, enroll,
}
use regime_flow.Engine.Order.{OrderStatus, Order}
use regime_flow.Base.Int.{pos, eqb_ℤ, ℤ}
use regime_flow.Base.Double.{Double}
use regime_flow.Result.{ok}
use regime_flow.Base.{Option, arith, map, ◌++◌, ◌==◌, ◌≡◌, if◌then◌else◌, ℕ, suc, some, none}

module _ (num : Double) (clock : ℕ → ℤ) where
  open num use {Real}

  -- The identifier that an order gets: its own, or the next one if that is 0.
  abbrev pub new_id : Order Real → Manager Real → ℕ
  new_id o m = if o.id == 0 then m.next_order_id else o.id

  -- The order as `submit_order_internal` first stores it.
  abbrev pub created_copy : Order Real → Manager Real → Order Real
  created_copy o m =
      let t = if eqb_ℤ o.created_at (pos 0) then clock m.clock_reads else o.created_at in
      record o { id = new_id o m; created_at = t; updated_at = t; status = OrderStatus.created }

  -- The number of readings of the clock before the status update.
  abbrev pub reads_after : Order Real → Manager Real → ℕ
  reads_after o m = if eqb_ℤ o.created_at (pos 0) then suc m.clock_reads else m.clock_reads

  -- The order as it is left: pending, and changed at the next reading of the clock.
  abbrev pub pending_copy : Order Real → Manager Real → Order Real
  pending_copy o m = record (created_copy o m) {
    status = OrderStatus.pending;
    updated_at = clock (reads_after o m);
  }

  enroll-parts :
      (o : Order Real) (m : Manager Real)
      → let (id, n) = enroll num clock none o m in
        (id ≡ new_id o m)
        × (n.orders ≡ insert (new_id o m) (created_copy o m) m.orders)
        × (n.parent_by_child ≡ m.parent_by_child)
        × (n.routing_states ≡ m.routing_states)
        × (n.clock_reads ≡ reads_after o m)
        × (n.next_order_id ≡ (if o.id == 0 then u64 (suc m.next_order_id) else m.next_order_id))
        × (n.log ≡ m.log ++ map (λ cb. order_update cb (created_copy o m)) m.order_callbacks)
        × (n.order_callbacks ≡ m.order_callbacks)
  unfolding enroll
  enroll-parts o m = ground arith

  finish-plain :
      (id : ℕ) (x : Order Real) (m' m : Manager Real)
      → lookup id m'.orders ≡ some x
      → lookup id m'.parent_by_child ≡ none
      → let updated = record x {
        status = OrderStatus.pending;
        updated_at = clock m'.clock_reads;
      } in
        finish_submit num clock (update_status num clock) (id, m') m ≡ (
          some (ok id),
          notify_order updated (record m' {
            clock_reads = suc m'.clock_reads;
            orders = insert id updated m'.orders;
          }),
        )
  unfolding finish_submit
  finish-plain id x m' m e p = rw (update_status-plain num clock id OrderStatus.pending x m' e p)

  accepted_checked :
      (o : Order Real) (m : Manager Real) (j : ℕ)
      → lookup (new_id o m) m.parent_by_child ≡ none
      → let (r, n) =
          finish_submit num clock (update_status num clock) (enroll num clock none o m) m in
        (r ≡ some (ok (new_id o m)))
        × (lookup j n.orders
            ≡ (if new_id o m == j then some (pending_copy o m) else lookup j m.orders))
        × (n.routing_states ≡ m.routing_states)
        × (n.next_order_id ≡ (if o.id == 0 then u64 (suc m.next_order_id) else m.next_order_id))
        × (n.log
            ≡ (m.log ++ map (λ cb. order_update cb (created_copy o m)) m.order_callbacks)
              ++ map (λ cb. order_update cb (pending_copy o m)) m.order_callbacks)
  unfolding notify_order
  accepted_checked o m j no_child =
      let (id, m') = enroll num clock none o m in
      let p = enroll-parts o m in
      let c = created_copy o m in
      let done =
        finish-plain id c m' m
          (ground (arith, p, lookup-insert (new_id o m) (new_id o m) c m.orders))
          (ground (arith, p)) in
      rw done (
        ground (
          arith,
          p,
          lookup-insert (new_id o m) j (pending_copy o m) (insert (new_id o m) c m.orders),
          lookup-insert (new_id o m) j c m.orders,
        ))

  accepted_route :
      (r : Option (Router Real)) (o o' : Order Real) (m : Manager Real)
      → r ≡ none
      → run_pre_submit num clock m.pre_submit_callbacks o ≡ ok o'
      → validate_order num o' ≡ ok tt
      → (let (plan, x) = route_order num clock r o in
          admit num clock (update_status num clock) plan x m)
        ≡ finish_submit num clock (update_status num clock) (enroll num clock none o' m) m
  unfolding route_order admit admit_prepared admit_checked
  accepted_route none o o' m e passed valid = rw (passed, admit_prepared, valid, admit_checked)
  accepted_route (some r) o o' m e passed valid = cc

  -- With no router, an order that passes the callbacks and the validation is stored as pending under the
  -- identifier that is returned, unless that identifier is a routed child's. Every other order stays as it
  -- was, and the callbacks are told first of the created and then of the pending order.
  pub submit_order-accepted :
      (o o' : Order Real) (m : Manager Real) (j : ℕ)
      → m.router ≡ none
      → run_pre_submit num clock m.pre_submit_callbacks o ≡ ok o'
      → validate_order num o' ≡ ok tt
      → lookup (new_id o' m) m.parent_by_child ≡ none
      → let (r, n) = submit_order num clock o m in
        (r ≡ some (ok (new_id o' m)))
        × (lookup j n.orders
            ≡ (if new_id o' m == j then some (pending_copy o' m) else lookup j m.orders))
        × (n.routing_states ≡ m.routing_states)
        × (n.next_order_id ≡ (if o'.id == 0 then u64 (suc m.next_order_id) else m.next_order_id))
        × (n.log
            ≡ (m.log ++ map (λ cb. order_update cb (created_copy o' m)) m.order_callbacks)
              ++ map (λ cb. order_update cb (pending_copy o' m)) m.order_callbacks)
  unfolding submit_order submit_order_internal
  submit_order-accepted o o' m j no_router passed valid no_child =
      rw (accepted_route m.router o o' m no_router passed valid) (accepted_checked o' m j no_child)
