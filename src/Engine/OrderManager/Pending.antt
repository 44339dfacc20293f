-- ===== src/Engine/OrderManager/Pending.antt =====
-- How the number of pending children moves: src/engine/order_manager.cpp.
use regime_flow.Engine.OrderManager.Status.{
  push_submitted, adopt, enroll, end_if_child, announce, set_status,
}
use regime_flow.Engine.OrderManager.Frame.{Frame-self, Frame}
use regime_flow.Engine.Order.{OrderStatus, Order}
use regime_flow.Base.Int.{ℤ}
use regime_flow.Engine.OrderManager.Routing.{
  mark_terminal, handle_child_terminal, put_routing, remaining_quantity, end_child, finish_child,
  take_next, finalize_parent_if_complete,
}
use regime_flow.Base.Table.{Table, insert, lookup}
use regime_flow.Base.Double.{Double}
use regime_flow.Engine.OrderManager.State.{
  notify_order, notify_orders, RoutingState, Manager, pending_total,
}
use regime_flow.Base.{
  Option, suc, Option-cases, inr, inl, ◌∷◌, ◌≤◌, ◌+◌, length, refl, ◌≡◌, arith, List, ℕ, [], some,
  none,
}

pub pending_total-insert :
    {R : Type 0} (id : ℕ) (s s' : RoutingState R) (t : Table (RoutingState R))
    → lookup id t ≡ some s
    → pending_total (insert id s' t) + length s.pending_children
      ≡ pending_total t + length s'.pending_children
unfolding pending_total lookup insert
pending_total-insert id s s' [] e = cc
pending_total-insert id s s' ((j, w) ∷ t) e = ground (arith, pending_total-insert id s s' t)

pub pending_total-insert_new :
    {R : Type 0} (id : ℕ) (s' : RoutingState R) (t : Table (RoutingState R))
    → lookup id t ≡ none
    → pending_total (insert id s' t) ≡ pending_total t + length s'.pending_children
unfolding pending_total lookup insert
pending_total-insert_new id s' [] e = omega arith
pending_total-insert_new id s' ((j, w) ∷ t) e = ground (arith, pending_total-insert_new id s' t)

module _ (num : Double) where
  open num use {Real}

  abbrev pub queued : Manager Real → ℕ
  queued m = pending_total m.routing_states

  finalize-pending :
      (parent_id : ℕ) (ts : ℤ) (m : Manager Real)
      → Frame m (finalize_parent_if_complete num parent_id ts m).1
  unfolding finalize_parent_if_complete
  finalize-pending parent_id ts m = ground arith

  take_next-pending :
      (remaining : Real) (cs : List (Order Real)) (s : RoutingState Real)
      → s.pending_children ≡ cs
      → length (take_next num remaining cs s).0
          + length (take_next num remaining cs s).1.pending_children
        ≤ length cs
  unfolding take_next
  take_next-pending remaining [] s e = ground arith
  take_next-pending remaining (c ∷ cs) s e = ground arith

  -- The children that `handle_child_terminal` hands out are off the lists of pending children.
  pub finish_child-pending :
      (parent_id : ℕ) (ts : ℤ) (next : List (Order Real)) (m : Manager Real)
      → ((finish_child num parent_id ts next m).1 ≡ next)
        × Frame m (finish_child num parent_id ts next m).2
  unfolding finish_child
  finish_child-pending parent_id ts [] m = (refl, finalize-pending parent_id ts m)
  finish_child-pending parent_id ts (c ∷ cs) m = (refl, Frame-self m)

  end_child-pending :
      (parent_id : ℕ) (ts : ℤ) (s : RoutingState Real) (m : Manager Real)
      → (old : RoutingState Real) → lookup parent_id m.routing_states ≡ some old
      → length old.pending_children ≡ length s.pending_children
      → let (_, next, m') = end_child num parent_id ts s m in length next + queued m' ≤ queued m
  unfolding end_child
  end_child-pending parent_id ts s m old e same = ground (
    arith,
    take_next-pending (remaining_quantity num s (lookup parent_id m.orders)) s.pending_children s
        refl,
    pending_total-insert parent_id old s m.routing_states e,
    pending_total-insert parent_id old
        (take_next num (remaining_quantity num s (lookup parent_id m.orders)) s.pending_children
          s).1
        m.routing_states e,
    finish_child-pending parent_id ts [] (put_routing parent_id s m),
    finish_child-pending parent_id ts
        (take_next num (remaining_quantity num s (lookup parent_id m.orders)) s.pending_children
          s).0
        (put_routing parent_id
          (take_next num (remaining_quantity num s (lookup parent_id m.orders)) s.pending_children
            s).1
          m),
  )

  finish_child-Frame :
      (parent_id : ℕ) (ts : ℤ) (next : List (Order Real)) (m : Manager Real)
      → Frame m (finish_child num parent_id ts next m).2
  finish_child-Frame parent_id ts next m = (finish_child-pending parent_id ts next m).1

  put_routing-keeps :
      (id : ℕ) (s : RoutingState Real) (m : Manager Real) (n : Manager Real)
      → Frame (put_routing id s m) n
      → queued n ≤ queued m
      → Frame m n
  put_routing-keeps id s m n f p = ground arith

  end_child-Frame :
      (parent_id : ℕ) (ts : ℤ) (s : RoutingState Real) (m : Manager Real)
      → queued (end_child num parent_id ts s m).2 ≤ queued m
      → Frame m (end_child num parent_id ts s m).2
  unfolding end_child
  end_child-Frame parent_id ts s m = ground (
    arith,
    finish_child-Frame parent_id ts [] (put_routing parent_id s m),
    finish_child-Frame parent_id ts
        (take_next num (remaining_quantity num s (lookup parent_id m.orders)) s.pending_children
          s).0
        (put_routing parent_id
          (take_next num (remaining_quantity num s (lookup parent_id m.orders)) s.pending_children
            s).1
          m),
  )

  pub handle_child_terminal-pending :
      (parent_id child_id : ℕ) (status : OrderStatus) (ts : ℤ) (m : Manager Real)
      → let (_, next, m') = handle_child_terminal num parent_id child_id status ts m in
        length next + queued m' ≤ queued m
  unfolding handle_child_terminal
  handle_child_terminal-pending parent_id child_id status ts m =
      elim (Option-cases (lookup parent_id m.routing_states)) [
        | inl e ↦ rw (e, handle_child_terminal) (omega arith)
        | inr (s, e) ↦
            rw (e, handle_child_terminal)
              (end_child-pending parent_id ts (mark_terminal child_id status s) m s e refl)
      ]

  pub handle_child_terminal-Frame :
      (parent_id child_id : ℕ) (status : OrderStatus) (ts : ℤ) (m : Manager Real)
      → Frame m (handle_child_terminal num parent_id child_id status ts m).2
  unfolding handle_child_terminal
  handle_child_terminal-Frame parent_id child_id status ts m =
      elim (Option-cases (lookup parent_id m.routing_states)) [
        | inl e ↦ rw (e, handle_child_terminal) (Frame-self m)
        | inr (s, e) ↦
            rw (e, handle_child_terminal)
              (end_child-Frame parent_id ts (mark_terminal child_id status s) m (
                omega (
                  arith,
                  end_child-pending parent_id ts (mark_terminal child_id status s) m s e refl,
                )))
      ]

pub notify_orders-Frame :
    {R : Type 0} (os : List (Order R)) (m : Manager R)
    → (Frame m (notify_orders os m))
      × ((notify_orders os m).orders ≡ m.orders)
      × ((notify_orders os m).routing_states ≡ m.routing_states)
unfolding notify_orders
notify_orders-Frame [] m = (Frame-self m, refl, refl)
notify_orders-Frame (o ∷ os) m =
    let ih = notify_orders-Frame os (notify_order o m) in ground (arith, ih)

module _ (num : Double) (clock : ℕ → ℤ) where
  open num use {Real}

  -- A step after which no more children are pending, with those that it hands out counted.
  abbrev pub Hands : Manager Real → List (Order Real) × Manager Real → Type 0
  Hands m (next, m') = Frame m m' × (length next + queued num m' ≤ queued num m)

  announce-Frame :
      (o : Order Real) (ps next : List (Order Real)) (m n : Manager Real)
      → Frame m n
      → length next + queued num n ≤ queued num m
      → Hands m (announce num clock o (ps, next, n))
  unfolding announce notify_order
  announce-Frame o ps next m n f p = ground (arith, notify_orders-Frame ps (notify_order o n))

  end_if_child-Hands :
      (id : ℕ) (status : OrderStatus) (ts : ℤ) (o : Order Real) (parent : Option ℕ)
      (m : Manager Real)
      → Hands m (announce num clock o (end_if_child num clock id status ts parent m))
  unfolding end_if_child
  end_if_child-Hands id status ts o none m = announce-Frame o [] [] m m (Frame-self m) (omega arith)
  end_if_child-Hands id status ts o (some p) m =
      let r = handle_child_terminal num p id status ts m in
      announce-Frame o r.0 r.1 m r.2 (handle_child_terminal-Frame num p id status ts m)
        (handle_child_terminal-pending num p id status ts m)

  pub set_status-Hands :
      (id : ℕ) (status : OrderStatus) (o : Order Real) (m : Manager Real)
      → Hands m (set_status num clock id status o m)
  unfolding set_status
  set_status-Hands id status o m =
      let now = clock m.clock_reads in
      let updated = record o { status = status; updated_at = now } in
      let m1 = record m { clock_reads = suc m.clock_reads; orders = insert id updated m.orders } in
      let h = end_if_child-Hands id status now updated (lookup id m.parent_by_child) m1 in
      (
        record {
          fills = h.0.fills;
          next_fill_id = h.0.next_fill_id;
          order_callbacks = h.0.order_callbacks;
          fill_callbacks = h.0.fill_callbacks;
          pre_submit_callbacks = h.0.pre_submit_callbacks;
          router = h.0.router;
          pending = h.0.pending;
        },
        h.1,
      )

  pub enroll-Frame : (o : Order Real) (m : Manager Real) → Frame m (enroll num clock none o m).1
  unfolding enroll
  enroll-Frame o m = ground arith

  pub adopt-Frame :
      (child parent_id : ℕ) (m : Manager Real) → Frame m (adopt num clock child parent_id m)
  unfolding adopt
  adopt-Frame child parent_id m = elim (Option-cases (lookup parent_id m.routing_states)) [
    | inl e ↦
        rw (e, adopt)
          (ground (
            arith,
            pending_total-insert_new parent_id (push_submitted num clock child none)
                m.routing_states,
          ))
    | inr (s, e) ↦
        rw (e, adopt)
          (ground (
            arith,
            pending_total-insert parent_id s (push_submitted num clock child (some s))
                m.routing_states,
          ))
  ]
