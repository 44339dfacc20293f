-- ===== src/Live/OrderManager/Known.antt =====
-- After `reconcile_with_broker` of src/live/live_order_manager.cpp no order of the broker is unknown.
use regime_flow.Base.Double.{Double}
use regime_flow.Base.Table.{lookup, Table, insert}
use text.Mathlib.TextPositions.{eq_refl}
use regime_flow.Live.Order.{ExecutionReport, LiveOrder}
use regime_flow.Live.OrderManager.Reports.{
  update_first, keep_entry, find_id, adopt_report, reconcile_report, reconcile_reports,
  live_of_report,
}
use regime_flow.Live.OrderManager.State.{LiveManager, notify_report, notify_order}
use regime_flow.Live.OrderManager.Numbers.{update_order_state-id, lookup-fresh}
use regime_flow.Live.OrderManager.Invariant.{IsNumbered, reconcile_report-IsNumbered}
use regime_flow.Base.{
  All, ◌^◌, ◌∙◌, ◌<◌, ap, length, subst, ◌+◌, Option-cases, List, inr, inl, Option, arith, ◌≡◌,
  is_some, ℕ, String, true, some, none, ◌∷◌, [],
}

module _ {R : Type 0} where
  abbrev pub IsKnown : String → Table (LiveOrder R) → Type 0
  IsKnown broker_id t = is_some (find_id broker_id t) ≡ true

  IsKnown-insert :
      (b : String) (id : ℕ) (o : LiveOrder R) (t : Table (LiveOrder R))
      → lookup id t ≡ none
      → IsKnown b t
      → IsKnown b (insert id o t)
  unfolding find_id insert lookup
  IsKnown-insert b id o [] e k = ground (arith, k)
  IsKnown-insert b id o ((j, p) ∷ t) e k = ground (arith, e, k, IsKnown-insert b id o t)

  IsKnown-inserted :
      (id : ℕ) (o : LiveOrder R) (t : Table (LiveOrder R))
      → IsKnown o.broker_order_id (insert id o t)
  unfolding find_id insert
  IsKnown-inserted id o [] = ground (arith, eq_refl o.broker_order_id)
  IsKnown-inserted id o ((j, p) ∷ t) =
      ground (arith, eq_refl o.broker_order_id, IsKnown-inserted id o t)

module _ (num : Double) where
  open num use {Real}

  -- What `update_first` leaves of the search for the order `b`.
  Finds :
      String
      → ExecutionReport Real
      → Table (LiveOrder Real)
      → Option (LiveOrder Real × Table (LiveOrder Real))
      → Type 0
  Finds b r t none = Unit
  Finds b r t (some (o, u)) =
      (find_id b u ≡ find_id b t) × (is_some (find_id r.broker_order_id t) ≡ true)

  keep_entry-Finds :
      (b : String) (r : ExecutionReport Real) (id : ℕ) (o : LiveOrder Real)
      (t : Table (LiveOrder Real)) (rest : Option (LiveOrder Real × Table (LiveOrder Real)))
      → Finds b r t rest
      → Finds b r ((id, o) ∷ t) (keep_entry (id, o) rest)
  unfolding Finds keep_entry find_id
  keep_entry-Finds b r id o t none f = tt
  keep_entry-Finds b r id o t (some (p, u)) f = ground (arith, f)

  update_first-Finds :
      (b : String) (r : ExecutionReport Real) (t : Table (LiveOrder Real))
      → Finds b r t (update_first num r t)
  unfolding update_first Finds find_id
  update_first-Finds b r [] = tt
  update_first-Finds b r ((id, o) ∷ t) = ground (
    arith,
    update_order_state-id num r o,
    keep_entry-Finds b r id o t (update_first num r t) (update_first-Finds b r t),
  )

  adopt_report-IsKnown :
      {B : Type 0} (b : String) (r : ExecutionReport Real) (m : LiveManager Real B)
      → IsNumbered m
      → IsKnown b m.orders
      → IsKnown b (adopt_report num r m).orders
  unfolding adopt_report notify_order
  adopt_report-IsKnown b r m v k =
      let n = m.next_order_id in
      IsKnown-insert b n (live_of_report num n r) m.orders
        (lookup-fresh n n m.orders (omega arith) v) k

  adopt_report-adopts :
      {B : Type 0} (r : ExecutionReport Real) (m : LiveManager Real B)
      → IsKnown r.broker_order_id (adopt_report num r m).orders
  unfolding adopt_report notify_order live_of_report
  adopt_report-adopts r m =
      IsKnown-inserted m.next_order_id (live_of_report num m.next_order_id r) m.orders

  module _ {B : Type 0} where
    reconcile_report-IsKnown :
        (b : String) (r : ExecutionReport Real) (m : LiveManager Real B)
        → IsNumbered m
        → IsKnown b m.orders
        → IsKnown b (reconcile_report num r m).orders
    unfolding reconcile_report notify_order notify_report Finds
    reconcile_report-IsKnown b r m v k = elim (Option-cases (update_first num r m.orders)) [
      | inl e ↦ rw (e, reconcile_report) (adopt_report-IsKnown b r m v k)
      | inr ((o, t), e) ↦
          let f = subst (Finds b r m.orders) e (update_first-Finds b r m.orders) in
          rw (e, reconcile_report) (ap is_some f.0 ∙ k)
    ]

    reconcile_report-finds :
        (r : ExecutionReport Real) (m : LiveManager Real B)
        → IsKnown r.broker_order_id (reconcile_report num r m).orders
    unfolding reconcile_report notify_order notify_report Finds
    reconcile_report-finds r m = elim (Option-cases (update_first num r m.orders)) [
      | inl e ↦ rw (e, reconcile_report) (adopt_report-adopts r m)
      | inr ((o, t), e) ↦
          let f =
            subst (Finds r.broker_order_id r m.orders) e
              (update_first-Finds r.broker_order_id r m.orders) in
          rw (e, reconcile_report) (ap is_some f.0 ∙ f.1)
    ]

    reconcile_reports-keeps :
        (b : String) (rs : List (ExecutionReport Real)) (m : LiveManager Real B)
        → m.next_order_id + length rs < 2 ^ 64
        → IsNumbered m
        → IsKnown b m.orders
        → IsKnown b (reconcile_reports num rs m).orders
    unfolding reconcile_reports
    reconcile_reports-keeps b [] m h v k = k
    reconcile_reports-keeps b (r ∷ rs) m h v k =
        let w = reconcile_report-IsNumbered num r m (omega arith) v in
        reconcile_reports-keeps b rs (reconcile_report num r m) (omega (arith, w.1)) w.0
          (reconcile_report-IsKnown b r m v k)

    -- After a reconciliation each order that the broker told of is known by its identifier at the broker, as
    -- long as the numbers that are left suffice and none of them is in use.
    pub reconcile_reports-IsKnown :
        (rs : List (ExecutionReport Real)) (m : LiveManager Real B)
        → m.next_order_id + length rs < 2 ^ 64
        → IsNumbered m
        → All
            (λ (r : ExecutionReport Real).
              IsKnown r.broker_order_id (reconcile_reports num rs m).orders)
            rs
    unfolding reconcile_reports
    reconcile_reports-IsKnown [] m h v = tt
    reconcile_reports-IsKnown (r ∷ rs) m h v =
        let w = reconcile_report-IsNumbered num r m (omega arith) v in
        let n = reconcile_report num r m in
        (
          reconcile_reports-keeps r.broker_order_id rs n (omega (arith, w.1)) w.0
              (reconcile_report-finds r m),
          reconcile_reports-IsKnown rs n (omega (arith, w.1)) w.0,
        )
