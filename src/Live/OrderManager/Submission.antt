-- ===== src/Live/OrderManager/Submission.antt =====
-- `submit_order`, the tests before it and `set_duplicate_order_window` of
-- src/live/live_order_manager.cpp.
use regime_flow.Live.OrderManager.Draft.{
  is_valid_order, live_order_of, is_live, duplicate_key, Formats,
}
use regime_flow.Base.Double.{Double}
use regime_flow.Base.Int.{◌-ℤ◌, pos, eqb_ℤ, leb_ℤ, ltb_ℤ, ℤ}
use regime_flow.Result.{ErrorCode, fail, Result, err, ok}
use regime_flow.Base.{
  leb, ◌&&◌, is_some, ◌==◌, not, if◌then◌else◌, Bool, ◌∷◌, Option, ℕ, String, suc, [], false, true,
  some, none,
}
use regime_flow.Base.StringTable.{find, put, StringTable}
use regime_flow.Base.Table.{insert, lookup}
use regime_flow.Base.Word.{u64}
use regime_flow.Engine.Order.{Order}
use regime_flow.Live.OrderManager.State.{
  BrokerAdapter, LiveManager, LiveAction, read_clock, note, notify_order, record_submitted,
  record_submit_rejected,
}

-- The entries that are not older than the window.
unfoldable pub drop_old : ℤ → ℤ → StringTable ℤ → StringTable ℤ
drop_old window now [] = []
drop_old window now ((k, t) ∷ keys) =
    let rest = drop_old window now keys in if ltb_ℤ window (now -ℤ t) then rest else (k, t) ∷ rest

module _ {R B : Type 0} where
  unfoldable pub prune_duplicate_keys : ℤ → LiveManager R B → LiveManager R B
  unfolding drop_old
  prune_duplicate_keys now m =
      if leb_ℤ m.duplicate_order_window_us (pos 0)
      then record m { recent_order_keys = [] }
      else record m {
        recent_order_keys = drop_old m.duplicate_order_window_us now m.recent_order_keys;
      }

  unfoldable pub id_in_use : Order R → LiveManager R B → Bool
  unfolding is_live
  id_in_use o m = not (o.id == 0) && is_live (lookup o.id m.orders)

  -- `id`, and `next_order_id_` above it.
  unfoldable pub assign_id : Order R → LiveManager R B → ℕ × LiveManager R B
  assign_id o m =
      let id = if o.id == 0 then m.next_order_id else o.id in
      let next = if o.id == 0 then u64 (suc m.next_order_id) else m.next_order_id in
      (id, record m { next_order_id = if leb next id then u64 (suc id) else next })

  unfoldable pub set_duplicate_order_window : ℤ → LiveManager R B → LiveManager R B
  set_duplicate_order_window window m =
      let us = if ltb_ℤ window (pos 0) then pos 0 else window in
      record m {
        duplicate_order_window_us = us;
        recent_order_keys = if eqb_ℤ us (pos 0) then [] else m.recent_order_keys;
      }

module _ (num : Double) where
  open num use {Real}

  module _ {B : Type 0} (formats : Formats Real) (clock : ℕ → ℤ) where
    unfoldable pub is_duplicate_order :
        Order Real → ℤ → LiveManager Real B → Bool × LiveManager Real B
    unfolding prune_duplicate_keys duplicate_key
    is_duplicate_order o now m =
        if leb_ℤ m.duplicate_order_window_us (pos 0)
        then (false, m)
        else (let n = prune_duplicate_keys now m in
            (is_some (find (duplicate_key num formats o) n.recent_order_keys), n))

    -- `live.created_at = ...; live.submitted_at = Timestamp::now();`
    unfoldable pub submission_times : Order Real → LiveManager Real B → (ℤ × ℤ) × LiveManager Real B
    unfolding read_clock
    submission_times o m =
        if eqb_ℤ o.created_at (pos 0)
        then (let (created, m1) = read_clock clock m in
            let (submitted, m2) = read_clock clock m1 in ((created, submitted), m2))
        else (let (submitted, m1) = read_clock clock m in ((o.created_at, submitted), m1))

    -- `recent_order_keys_[duplicate_key(order)] = now`
    unfoldable pub remember_key : Order Real → ℤ → LiveManager Real B → LiveManager Real B
    unfolding duplicate_key put
    remember_key o now m =
        if ltb_ℤ (pos 0) m.duplicate_order_window_us
        then record m {
          recent_order_keys = put (duplicate_key num formats o) now m.recent_order_keys;
        }
        else m

    unfoldable pub accept_order : Order Real → ℤ → ℕ → String → LiveAction Real B ℕ
    unfolding submission_times live_order_of note notify_order remember_key
    accept_order o now id broker_id m =
        let ((created, submitted), m1) = submission_times o m in
        let live = live_order_of num formats id broker_id created submitted o in
        let m2 = note (record_submitted live) (record m1 { orders = insert id live m1.orders }) in
        (ok id, remember_key o now (notify_order live m2))

    unfoldable pub answer_of_broker : Order Real → ℤ → ℕ → Result String → LiveAction Real B ℕ
    unfolding accept_order note read_clock
    answer_of_broker o now id (ok broker_id) m = accept_order o now id broker_id m
    answer_of_broker o now id (err e) m =
        let (t, m1) = read_clock clock m in (err e, note (record_submit_rejected t) m1)

    -- `broker_->submit_order(order)`, under the identifier that was chosen.
    unfoldable pub send_as :
        BrokerAdapter Real B
        → Order Real
        → ℤ
        → ℕ × LiveManager Real B
        → Result ℕ × LiveManager Real B
    unfolding answer_of_broker
    send_as broker o now (id, m) =
        let (answer, b) = broker.submit_order o m.broker_state in
        answer_of_broker o now id answer (record m { broker_state = b })

    unfoldable pub send_order : BrokerAdapter Real B → Order Real → ℤ → LiveAction Real B ℕ
    unfolding assign_id send_as
    send_order broker o now m = send_as broker o now (assign_id o m)

    -- What follows the search for a duplicate.
    unfoldable pub send_unless : Bool → BrokerAdapter Real B → Order Real → ℤ → LiveAction Real B ℕ
    unfolding send_order note
    send_unless true broker o now m = (
      fail ErrorCode.already_exists "Duplicate live order rejected",
      note (record_submit_rejected now) m,
    )
    send_unless false broker o now m = send_order broker o now m

    unfoldable pub submit_valid : BrokerAdapter Real B → Order Real → LiveAction Real B ℕ
    unfolding read_clock id_in_use is_duplicate_order send_unless note
    submit_valid broker o m =
        let (now, m1) = read_clock clock m in
        if id_in_use o m1
        then (
          fail ErrorCode.already_exists "Duplicate live order id rejected",
          note (record_submit_rejected now) m1,
        )
        else (let (duplicate, m2) = is_duplicate_order o now m1 in
            send_unless duplicate broker o now m2)

    unfoldable pub submit_to : Option (BrokerAdapter Real B) → Order Real → LiveAction Real B ℕ
    unfolding submit_valid is_valid_order
    submit_to none o m = (fail ErrorCode.invalid_state "Broker adapter not configured", m)
    submit_to (some broker) o m =
        if is_valid_order num o
        then submit_valid broker o m
        else (fail ErrorCode.invalid_argument "Order validation failed", m)

    unfoldable pub submit_order : Order Real → LiveAction Real B ℕ
    unfolding submit_to
    submit_order o m = submit_to m.broker o m
