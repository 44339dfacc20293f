-- ===== src/Engine/OrderManager/Returning.antt =====
-- That a submission of src/engine/order_manager.cpp returns if the status updates that it leads to do.
use regime_flow.Engine.OrderManager.Validation.{validate_order}
use regime_flow.Engine.OrderManager.Pending.{queued, enroll-Frame, adopt-Frame}
use regime_flow.Engine.OrderManager.Frame.{Frame-self, Frame-trans, Frame}
use regime_flow.Engine.Order.{Order, OrderStatus}
use regime_flow.Engine.OrderManager.Status.{
  enroll, run_pre_submit, admit, submit_order_internal, submit_next, submit_child_order,
  finish_child_submit, admit_prepared, admit_checked, finish_submit, Updater,
}
use regime_flow.Engine.OrderManager.State.{Manager}
use regime_flow.Base.Int.{ℤ}
use regime_flow.Base.Double.{Double}
use regime_flow.Result.{Void, Result, err, ok}
use regime_flow.Base.{◌∷◌, arith, ◌≡◌, ◌<◌, is_some, List, Option, ℕ, [], refl, true, some, none}

module _ (num : Double) (clock : ℕ → ℤ) where
  open num use {Real}

  -- A call that has a result, and keeps the frame.
  abbrev pub Returns : {A : Type 0} → Manager Real → Option (Result A) × Manager Real → Type 0
  Returns m (r, n) = (is_some r ≡ true) × Frame m n

  -- Status updates return while fewer than `k` children are pending.
  abbrev pub Settles : ℕ → Updater num clock → Type 0
  Settles k update =
      (id : ℕ) (status : OrderStatus) (m : Manager Real)
      → queued num m < k
      → Returns m (update id status m)

  module _ (k : ℕ) (update : Updater num clock) (settles : Settles k update) where
    finish_submit-Returns :
        (id : ℕ) (m m' : Manager Real)
        → Frame m m'
        → queued num m < k
        → Returns m (finish_submit num clock update (id, m') m)
    unfolding finish_submit
    finish_submit-Returns id m m' f h =
        ground (arith, settles id OrderStatus.pending m' (omega (arith, f.pending)))

    admit_checked-Returns :
        (o : Order Real) (v : Result Void) (m : Manager Real)
        → queued num m < k
        → Returns m (admit_checked num clock update none o v m)
    unfolding admit_checked
    admit_checked-Returns o (err e) m h = (refl, Frame-self m)
    admit_checked-Returns o (ok _) m h =
        let f = enroll-Frame num clock o m in
        finish_submit-Returns (enroll num clock none o m).0 m (enroll num clock none o m).1 f h

    admit_prepared-Returns :
        (o : Result (Order Real)) (m : Manager Real)
        → queued num m < k
        → Returns m (admit_prepared num clock update none o m)
    unfolding admit_prepared
    admit_prepared-Returns (err e) m h = (refl, Frame-self m)
    admit_prepared-Returns (ok o) m h = admit_checked-Returns o (validate_order num o) m h

    finish_child_submit-Returns :
        (parent_id : ℕ) (m : Manager Real) (r : Option (Result ℕ)) (n : Manager Real)
        → Returns m (r, n)
        → Returns m (finish_child_submit num clock parent_id (r, n))
    unfolding finish_child_submit
    finish_child_submit-Returns parent_id m none n h = h
    finish_child_submit-Returns parent_id m (some (err e)) n h = h
    finish_child_submit-Returns parent_id m (some (ok child)) n h =
        (refl, Frame-trans h.1 (adopt-Frame num clock child parent_id n))

    pub submit_child_order-Returns :
        (c : Order Real) (parent_id : ℕ) (m : Manager Real)
        → queued num m < k
        → Returns m (submit_child_order num clock update c parent_id m)
    unfolding submit_child_order submit_order_internal admit
    submit_child_order-Returns c parent_id m h =
        let o =
          run_pre_submit num clock m.pre_submit_callbacks (record c { parent_id = parent_id }) in
        let r = admit_prepared num clock update none o m in
        finish_child_submit-Returns parent_id m r.0 r.1 (admit_prepared-Returns o m h)

    pub submit_next-Returns :
        (cs : List (Order Real)) (m : Manager Real)
        → queued num m < k
        → Returns m (submit_next num clock update cs m)
    unfolding submit_next
    submit_next-Returns [] m h = (refl, Frame-self m)
    submit_next-Returns (c ∷ cs) m h =
        let first = submit_child_order-Returns c c.parent_id m h in
        let m' = (submit_child_order num clock update c c.parent_id m).1 in
        let rest = submit_next-Returns cs m' (omega (arith, first.1.pending)) in
        ground (arith, first, rest)
