-- ===== src/Live/OrderManager/Fresh.antt =====
-- What a submission that the broker accepts does (`submit_order` of src/live/live_order_manager.cpp).
use regime_flow.Live.OrderManager.Numbers.{lookup-fresh}
use regime_flow.Engine.Order.{Order}
use regime_flow.Live.Order.{LiveOrder, LiveOrderStatus}
use regime_flow.Base.Int.{leb_ℤ, pos, eqb_ℤ, ℤ}
use regime_flow.Base.Double.{Double}
use regime_flow.Result.{Result, ok}
use regime_flow.Base.{
  refl, false, ◌∙◌, sym, ap, subst, Bool-cases, inr, inl, ◌^◌, ◌<◌, arith, ◌+◌, ◌≢◌, ◌≡◌, String,
  if◌then◌else◌, ℕ, suc, true, some, none,
}
use regime_flow.Base.Table.{lookup-insert, insert, lookup}
use regime_flow.Live.OrderManager.Submission.{
  send_as, submit_order, submit_to, submit_valid, id_in_use, is_duplicate_order, send_unless,
  send_order, answer_of_broker, accept_order, assign_id, submission_times, remember_key,
}
use regime_flow.Live.OrderManager.Draft.{is_valid_order, live_order_of, Formats}
use regime_flow.Live.OrderManager.State.{LiveManager, BrokerAdapter, note, notify_order, read_clock}
use regime_flow.Live.OrderManager.Invariant.{IsNumbered}

module _ {R : Type 0} (clock : ℕ → ℤ) where
  -- The times that an order gets if the clock is read for the `k`-th time next.
  abbrev pub created_at : Order R → ℕ → ℤ
  created_at o k = if eqb_ℤ o.created_at (pos 0) then clock k else o.created_at

  abbrev pub submitted_at : Order R → ℕ → ℤ
  submitted_at o k = if eqb_ℤ o.created_at (pos 0) then clock (suc k) else clock k

module _ (num : Double) (formats : Formats num.Real) (clock : ℕ → ℤ) where
  open num use {Real, nil}

  -- The live order `live` stands for `o`, which was sent under the identifier `id` and has no fills.
  pub record IsPending (o : Order Real) (id : ℕ) (broker_id : String) (k : ℕ)
      (live : LiveOrder Real) : Type 0 where
    pub status_pending : live.status ≡ LiveOrderStatus.pending_new
    pub own_id : live.internal_id ≡ id
    pub id_at_broker : live.broker_order_id ≡ broker_id
    pub same_symbol : live.symbol ≡ formats.symbol_name o.symbol
    pub same_side : live.side ≡ o.side
    pub same_type : live.type ≡ o.type
    pub same_quantity : live.quantity ≡ o.quantity
    pub same_limit : live.limit_price ≡ o.limit_price
    pub same_stop : live.stop_price ≡ o.stop_price
    pub nothing_filled : live.filled_quantity ≡ nil
    pub created : live.created_at ≡ created_at clock o k
    pub submitted : live.submitted_at ≡ submitted_at clock o k

  live_order_of-IsPending :
      (o : Order Real) (id : ℕ) (broker_id : String) (k : ℕ)
      → IsPending o id broker_id k
          (live_order_of num formats id broker_id (created_at clock o k) (submitted_at clock o k) o)
  unfolding live_order_of
  live_order_of-IsPending o id broker_id k = record {
    status_pending = refl;
    own_id = refl;
    id_at_broker = refl;
    same_symbol = refl;
    same_side = refl;
    same_type = refl;
    same_quantity = refl;
    same_limit = refl;
    same_stop = refl;
    nothing_filled = refl;
    created = refl;
    submitted = refl;
  }

module _ (num : Double) {B : Type 0} (formats : Formats num.Real) (clock : ℕ → ℤ) where
  open num use {Real}

  -- The result and the state of a submission of `o` that the broker knows as `broker_id`.
  abbrev pub IsSubmitted :
      Order Real → String → LiveManager Real B → Result ℕ × LiveManager Real B → Type 0
  IsSubmitted o broker_id m (r, n) =
      (r ≡ ok m.next_order_id)
      × (lookup m.next_order_id m.orders ≡ none)
      × ((live : LiveOrder Real) × (lookup m.next_order_id n.orders ≡ some live)
          × IsPending num formats clock o m.next_order_id broker_id (suc m.clock_reads) live)
      × ((j : ℕ) → j ≢ m.next_order_id → lookup j n.orders ≡ lookup j m.orders)
      × (n.next_order_id ≡ suc m.next_order_id)

  -- What the sending of `o` under the next identifier leaves.
  IsSent : Order Real → String → LiveManager Real B → Result ℕ × LiveManager Real B → Type 0
  IsSent o broker_id m (r, n) =
      (r ≡ ok m.next_order_id)
      × (n.orders
          ≡ insert m.next_order_id
              (live_order_of num formats m.next_order_id broker_id
                (created_at clock o m.clock_reads) (submitted_at clock o m.clock_reads) o)
              m.orders)
      × (n.next_order_id ≡ suc m.next_order_id)

  accept-IsSent :
      (o : Order Real) (now : ℤ) (broker_id : String) (b : B) (m : LiveManager Real B)
      → IsSent o broker_id m (
          accept_order num formats clock o now m.next_order_id broker_id
            (record m { next_order_id = suc m.next_order_id; broker_state = b }))
  unfolding IsSent accept_order note notify_order read_clock remember_key submission_times
  accept-IsSent o now broker_id b m = elim (Bool-cases (eqb_ℤ o.created_at (pos 0))) [
    | inl e ↦ rw (e, accept_order) (ground arith)
    | inr e ↦ rw (e, accept_order) (ground arith)
  ]

  assign_id-fresh :
      (o : Order Real) (m : LiveManager Real B)
      → o.id ≡ 0
      → m.next_order_id + 1 < 2 ^ 64
      → assign_id o m ≡ (m.next_order_id, record m { next_order_id = suc m.next_order_id })
  unfolding assign_id
  assign_id-fresh o m e h = ground arith

  send-IsSent :
      (broker : BrokerAdapter Real B) (o : Order Real) (now : ℤ) (broker_id : String) (b : B)
      (m : LiveManager Real B)
      → o.id ≡ 0
      → m.next_order_id + 1 < 2 ^ 64
      → broker.submit_order o m.broker_state ≡ (ok broker_id, b)
      → IsSent o broker_id m (send_order num formats clock broker o now m)
  unfolding send_order send_as answer_of_broker
  send-IsSent broker o now broker_id b m e h a =
      subst (λ p. IsSent o broker_id m (send_as num formats clock broker o now p))
        (sym (assign_id-fresh o m e h)) (rw (a, send_as) (accept-IsSent o now broker_id b m))

  sent-IsSubmitted :
      (o : Order Real) (broker_id : String) (m : LiveManager Real B)
      (p : Result ℕ × LiveManager Real B)
      → IsNumbered m
      → IsSent o broker_id (record m { clock_reads = suc m.clock_reads }) p
      → IsSubmitted o broker_id m p
  unfolding IsSent
  sent-IsSubmitted o broker_id m p v s =
      let n = m.next_order_id in
      let k = suc m.clock_reads in
      let live =
        live_order_of num formats n broker_id (created_at clock o k) (submitted_at clock o k) o in
      (
        s.0,
        lookup-fresh n n m.orders (omega arith) v,
        (
          live,
          ap (lookup n) s.1 ∙ ground (arith, lookup-insert n n live m.orders),
          live_order_of-IsPending num formats clock o n broker_id k,
        ),
        λ j d. ap (lookup j) s.1 ∙ ground (arith, lookup-insert n j live m.orders, d),
        s.2,
      )

  not_in_use : (o : Order Real) (m : LiveManager Real B) → o.id ≡ 0 → id_in_use o m ≡ false
  unfolding id_in_use
  not_in_use o m e = ground arith

  submit_valid-sends :
      (broker : BrokerAdapter Real B) (o : Order Real) (m : LiveManager Real B)
      → o.id ≡ 0
      → leb_ℤ m.duplicate_order_window_us (pos 0) ≡ true
      → submit_valid num formats clock broker o m
        ≡ send_order num formats clock broker o
            (clock m.clock_reads)
            (record m { clock_reads = suc m.clock_reads })
  unfolding submit_valid is_duplicate_order send_unless read_clock
  submit_valid-sends broker o m e w =
      rw (not_in_use o (record m { clock_reads = suc m.clock_reads }) e, submit_valid)
        (rw (w, is_duplicate_order) refl)

  -- With no window for duplicates, a valid order that brings no identifier and that the broker accepts is
  -- stored under the next identifier, which is returned and was not in use: in the status of a new pending
  -- order, with the broker's identifier, the order's own symbol, side, type, quantity and prices, and no fill.
  -- Every other order stays, and the next identifier, which is taken to be below 2 ^ 64, moves up by one.
  pub submit_order-IsSubmitted :
      (broker : BrokerAdapter Real B) (o : Order Real) (broker_id : String) (b : B)
      (m : LiveManager Real B)
      → IsNumbered m
      → is_valid_order num o ≡ true
      → o.id ≡ 0
      → leb_ℤ m.duplicate_order_window_us (pos 0) ≡ true
      → m.next_order_id + 1 < 2 ^ 64
      → broker.submit_order o m.broker_state ≡ (ok broker_id, b)
      → IsSubmitted o broker_id m
          (submit_order num formats clock o (record m { broker = some broker }))
  unfolding submit_order submit_to IsSent
  submit_order-IsSubmitted broker o broker_id b m v valid e w h a =
      let m1 = record m { broker = some broker; clock_reads = suc m.clock_reads } in
      rw (valid, submit_to)
        (subst (IsSubmitted o broker_id m)
          (sym (submit_valid-sends broker o (record m { broker = some broker }) e w))
          (sent-IsSubmitted o broker_id m
            (send_order num formats clock broker o (clock m.clock_reads) m1) v
            (send-IsSent broker o (clock m.clock_reads) broker_id b m1 e h a)))
