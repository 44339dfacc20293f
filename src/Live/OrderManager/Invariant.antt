-- ===== src/Live/OrderManager/Invariant.antt =====
-- The invariant of `next_order_id_` under every method of src/live/live_order_manager.cpp.
use regime_flow.Base.Table.{lookup}
use regime_flow.Result.{Result, err, ok}
use regime_flow.Base.Word.{u64}
use regime_flow.Base.Int.{ℤ}
use regime_flow.Base.Double.{Double}
use regime_flow.Engine.Order.{Order}
use regime_flow.Live.Order.{ExecutionReport, LiveOrderStatus}
use regime_flow.Live.OrderManager.State.{
  LiveManager, note, notify_order, notify_report, read_clock, BrokerAdapter,
}
use regime_flow.Live.OrderManager.Draft.{Formats, live_order_of}
use regime_flow.Live.OrderManager.Submission.{
  send_as, assign_id, accept_order, send_order, send_unless, submit_valid, submit_to,
  answer_of_broker, submission_times, remember_key, is_duplicate_order, prune_duplicate_keys,
}
use regime_flow.Live.OrderManager.Reports.{
  blank_live, restored_order, update_first, adopt_report, reconcile_report, reconcile_reports,
  handle_execution_report, restore_order, live_of_report,
}
use regime_flow.Live.OrderManager.Numbers.{
  AreBelow, AreBelow-mono, AreBelow-insert, Keeps, update_first-Keeps,
}
use regime_flow.Base.{
  value_or, leb, if◌then◌else◌, Option, sym, ◌≡◌, Bool, false, true, some, none, arith, String,
  length, subst, ◌≤◌, ◌^◌, ℕ, List, Option-cases, ◌<◌, ◌+◌, suc, refl, inr, inl, ◌∷◌, [],
}

module _ {R B : Type 0} where
  -- Each order is stored under its own identifier, and that is below the next one.
  abbrev pub IsNumbered : LiveManager R B → Type 0
  IsNumbered m = AreBelow m.next_order_id m.orders

  -- What a submission of `o` is given: the numbers are 64 bits wide, and one is left above those in use.
  abbrev pub HasRoom : Order R → LiveManager R B → Type 0
  HasRoom o m = (o.id + 1 < 2 ^ 64) × (m.next_order_id + 2 < 2 ^ 64)

  assign_id-above :
      (o : Order R) (m : LiveManager R B)
      → HasRoom o m
      → let (id, n) = assign_id o m in (id < n.next_order_id) × (m.next_order_id ≤ n.next_order_id)
  unfolding assign_id
  assign_id-above o m h = ground arith

module _ (num : Double) {B : Type 0} where
  open num use {Real}

  pub handle_execution_report-IsNumbered :
      (r : ExecutionReport Real) (m : LiveManager Real B)
      → IsNumbered m
      → IsNumbered (handle_execution_report num r m)
  unfolding handle_execution_report note notify_report notify_order
  handle_execution_report-IsNumbered r m v = elim (Option-cases (update_first num r m.orders)) [
    | inl e ↦ rw (e, handle_execution_report) v
    | inr ((o, t), e) ↦
        rw (e, handle_execution_report)
          (subst (Keeps num m.next_order_id) e
            (update_first-Keeps num m.next_order_id r m.orders v))
  ]

  adopt_report-IsNumbered :
      (r : ExecutionReport Real) (m : LiveManager Real B)
      → m.next_order_id + 1 < 2 ^ 64
      → IsNumbered m
      → IsNumbered (adopt_report num r m)
  unfolding adopt_report notify_order live_of_report
  adopt_report-IsNumbered r m h v =
      let n = m.next_order_id in
      AreBelow-insert (u64 (suc n)) n (live_of_report num n r) m.orders (omega arith) refl
        (AreBelow-mono n (u64 (suc n)) (omega arith) m.orders v)

  pub reconcile_report-IsNumbered :
      (r : ExecutionReport Real) (m : LiveManager Real B)
      → m.next_order_id + 1 < 2 ^ 64
      → IsNumbered m
      → IsNumbered (reconcile_report num r m)
        × ((reconcile_report num r m).next_order_id ≤ m.next_order_id + 1)
  unfolding reconcile_report notify_report notify_order
  reconcile_report-IsNumbered r m h v = elim (Option-cases (update_first num r m.orders)) [
    | inl e ↦
        rw (e, reconcile_report)
          (adopt_report-IsNumbered r m h v, unfold adopt_report in omega arith)
    | inr ((o, t), e) ↦
        rw (e, reconcile_report)
          (
            subst (Keeps num m.next_order_id) e
                (update_first-Keeps num m.next_order_id r m.orders v),
            omega arith,
          )
  ]

  pub reconcile_reports-IsNumbered :
      (rs : List (ExecutionReport Real)) (m : LiveManager Real B)
      → m.next_order_id + length rs < 2 ^ 64
      → IsNumbered m
      → IsNumbered (reconcile_reports num rs m)
  unfolding reconcile_reports
  reconcile_reports-IsNumbered [] m h v = v
  reconcile_reports-IsNumbered (r ∷ rs) m h v =
      let k = reconcile_report-IsNumbered r m (omega arith) v in
      reconcile_reports-IsNumbered rs (reconcile_report num r m) (omega (arith, k.1)) k.0

  pub restore_order-IsNumbered :
      (id : ℕ) (broker_id symbol : String) (s : LiveOrderStatus) (m : LiveManager Real B)
      → id + 1 < 2 ^ 64
      → IsNumbered m
      → IsNumbered (restore_order num id broker_id symbol s m)
  unfolding restore_order restored_order
  restore_order-IsNumbered id broker_id symbol s m h v =
      let n = m.next_order_id in
      let next = if leb n id then u64 (suc id) else n in
      let live =
        restored_order num id broker_id symbol s (value_or (lookup id m.orders) (blank_live num)) in
      let above : id < next = ground arith in
      let grows : n ≤ next = ground arith in
      ground (
        arith,
        v,
        AreBelow-insert next id live m.orders above refl (AreBelow-mono n next grows m.orders v),
      )

  module _ (formats : Formats Real) (clock : ℕ → ℤ) where
    accept_order-IsNumbered :
        (o : Order Real) (now : ℤ) (id : ℕ) (broker_id : String) (m : LiveManager Real B)
        → id < m.next_order_id
        → IsNumbered m
        → IsNumbered (accept_order num formats clock o now id broker_id m).1
    unfolding accept_order note notify_order read_clock remember_key submission_times live_order_of
    accept_order-IsNumbered o now id broker_id m h v =
        let t = m.clock_reads in
        let stored = λ (created : ℤ) (submitted : ℤ).
          AreBelow-insert m.next_order_id id
            (live_order_of num formats id broker_id created submitted o) m.orders h refl v in
        ground (arith, stored (clock t) (clock (suc t)), stored o.created_at (clock t))

    answer-IsNumbered :
        (o : Order Real) (now : ℤ) (id : ℕ) (answer : Result String) (m : LiveManager Real B)
        → id < m.next_order_id
        → IsNumbered m
        → IsNumbered (answer_of_broker num formats clock o now id answer m).1
    unfolding answer_of_broker note read_clock
    answer-IsNumbered o now id (ok broker_id) m h v =
        accept_order-IsNumbered o now id broker_id m h v
    answer-IsNumbered o now id (err e) m h v = v

    send_order-IsNumbered :
        (broker : BrokerAdapter Real B) (o : Order Real) (now : ℤ) (m : LiveManager Real B)
        → HasRoom o m
        → IsNumbered m
        → IsNumbered (send_order num formats clock broker o now m).1
    unfolding send_order send_as assign_id
    send_order-IsNumbered broker o now m h v =
        let (id, n) = assign_id o m in
        let (answer, b) = broker.submit_order o n.broker_state in
        let (above, grows) = assign_id-above o m h in
        answer-IsNumbered o now id answer (record n { broker_state = b }) above
          (AreBelow-mono m.next_order_id n.next_order_id grows m.orders v)

    send_unless-IsNumbered :
        (duplicate : Bool) (broker : BrokerAdapter Real B) (o : Order Real) (now : ℤ)
        (m : LiveManager Real B)
        → HasRoom o m
        → IsNumbered m
        → IsNumbered (send_unless num formats clock duplicate broker o now m).1
    unfolding send_unless note
    send_unless-IsNumbered true broker o now m h v = v
    send_unless-IsNumbered false broker o now m h v = send_order-IsNumbered broker o now m h v

    -- The search for a duplicate changes neither the orders nor the next identifier.
    is_duplicate_order-keeps :
        (o : Order Real) (now : ℤ) (m : LiveManager Real B)
        → let n = (is_duplicate_order num formats clock o now m).1 in
          (n.next_order_id ≡ m.next_order_id) × (n.orders ≡ m.orders)
    unfolding is_duplicate_order prune_duplicate_keys
    is_duplicate_order-keeps o now m = ground arith

    submit_valid-IsNumbered :
        (broker : BrokerAdapter Real B) (o : Order Real) (m : LiveManager Real B)
        → HasRoom o m
        → IsNumbered m
        → IsNumbered (submit_valid num formats clock broker o m).1
    unfolding submit_valid read_clock note
    submit_valid-IsNumbered broker o m h v =
        let m1 = (read_clock clock m).1 in
        let now = clock m.clock_reads in
        let (duplicate, m2) = is_duplicate_order num formats clock o now m1 in
        let (same_next, same_orders) = is_duplicate_order-keeps o now m1 in
        let numbered : IsNumbered m2 =
          subst (λ n. AreBelow n m2.orders) (sym same_next)
            (subst (AreBelow m.next_order_id) (sym same_orders) v) in
        ground (
          arith,
          v,
          send_unless-IsNumbered duplicate broker o now m2 (h.0, omega (arith, same_next, h.1))
              numbered,
        )

    pub submit_to-IsNumbered :
        (broker : Option (BrokerAdapter Real B)) (o : Order Real) (m : LiveManager Real B)
        → HasRoom o m
        → IsNumbered m
        → IsNumbered (submit_to num formats clock broker o m).1
    unfolding submit_to
    submit_to-IsNumbered none o m h v = v
    submit_to-IsNumbered (some broker) o m h v =
        ground (arith, v, submit_valid-IsNumbered broker o m h v)
