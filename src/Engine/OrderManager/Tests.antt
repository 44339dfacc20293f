-- ===== src/Engine/OrderManager/Tests.antt =====
-- Runs of the order manager of src/engine/order_manager.cpp on small inputs.
use regime_flow.Engine.OrderManager.Queries.{get_fills}
use regime_flow.Engine.OrderManager.Termination.{methods_return}
use regime_flow.Engine.OrderManager.Acceptance.{
  validate_order-ok_iff, IsAcceptable, IsPositiveOrNan,
}
use regime_flow.Engine.OrderManager.Submission.{submit_order-accepted, created_copy, pending_copy}
use regime_flow.Engine.OrderManager.Status.{run_pre_submit, route_order, submit_order_internal}
use regime_flow.Engine.OrderManager.Completion.{report_all-IsClosed, report_all, IsClosed}
use regime_flow.Engine.OrderManager.Children.{
  handle_child_terminal-bounded, handle_child_terminal-IsOutcome, IsOutcome,
}
use regime_flow.Engine.OrderManager.Totals.{
  process_fills-total, total_filled, filled_of, process_fills,
}
use regime_flow.Engine.OrderManager.Modification.{modify_order-Modifies, Modifies}
use regime_flow.Engine.OrderManager.Plain.{submit_order-refused}
use regime_flow.Engine.OrderManager.Validation.{validate_order}
use regime_flow.Engine.OrderManager.Routing.{handle_child_terminal}
use regime_flow.Result.{ErrorCode, fail, ok}
use regime_flow.Base.Double.{whole}
use regime_flow.Base.Table.{insert, lookup}
use regime_flow.Base.Int.{negsuc, leb_ℤ, ltb_ℤ, ◌-ℤ◌, pos, ℤ}
use regime_flow.Engine.OrderManager.Operations.{
  activate_routed_order, update_status, process_fill, modify_order, OrderModification, submit_order,
  cancel_order,
}
use regime_flow.Engine.Order.{
  ParentAggregation, OrderSide, SplitMode, Fill, market_order, OrderStatus, Order,
}
use regime_flow.Engine.OrderManager.State.{order_update, notify_orders, RoutingState, Manager}
use regime_flow.Base.{
  inl, ◌++◌, length, All, arith, ◌↔◌, is_some, ◌≡◌, ◌+◌, Option, ◌∷◌, List, ℕ, [], refl, false,
  true, some, none,
}

abbrev clock : ℕ → ℤ
clock n = pos (100 + n)

abbrev empty : Manager ℤ
empty = record {
  orders = [];
  fills = [];
  order_callbacks = 7 ∷ [];
  fill_callbacks = [];
  pre_submit_callbacks = [];
  router = none;
  routing_states = [];
  parent_by_child = [];
  next_order_id = 1;
  next_fill_id = 1;
  clock_reads = 0;
  log = [];
}

abbrev ten : Order ℤ
ten = market_order whole 5 OrderSide.buy (pos 10)

abbrev stored : ℕ → OrderStatus → Order ℤ
stored id status = record ten { id = id; status = status; created_at = pos 1; updated_at = pos 1 }

-- One pending order under the identifier 3.
abbrev one_order : Manager ℤ
one_order = record empty { orders = (3, stored 3 OrderStatus.pending) ∷ []; next_order_id = 4 }

abbrev no_symbol : Order ℤ
no_symbol = record ten { symbol = 0 }

abbrev fill_of : ℕ → ℤ → Fill ℤ
fill_of order_id quantity = record {
  id = 0;
  order_id = order_id;
  parent_order_id = 0;
  symbol = 5;
  quantity = quantity;
  price = pos 2;
  timestamp = pos 0;
  commission = pos 0;
  transaction_cost = pos 0;
  slippage = pos 0;
  is_maker = false;
  venue = "";
}

-- Order 1 is a parent, order 2 its submitted child, and a second child waits.
abbrev waiting : List (Order ℤ) → SplitMode → RoutingState ℤ
waiting pending mode = record {
  split_mode = mode;
  aggregation = ParentAggregation.partial;
  activated = true;
  filled_quantity = pos 4;
  avg_fill_price = pos 2;
  had_reject = false;
  had_cancel = false;
  pending_children = pending;
  submitted_children = 2 ∷ [];
  terminal_children = [];
}

abbrev routed : List (Order ℤ) → Manager ℤ
routed pending = record empty {
  orders = (1, stored 1 OrderStatus.pending) ∷ (2, stored 2 OrderStatus.pending) ∷ [];
  routing_states = (1, waiting pending SplitMode.sequential) ∷ [];
  parent_by_child = (2, 1) ∷ [];
  next_order_id = 3;
}

abbrev status_at : ℕ → Manager ℤ → Option OrderStatus
status_at id m = elim (lookup id m.orders) [ none ↦ none | some o ↦ some o.status ]

-- Cancelling the parent 1 cancels its child 2 and then submits the child that waited, under 3.
cancelled_parent_goes_on :
    let (_, n) = cancel_order whole clock 1 (routed (ten ∷ [])) in
    (status_at 1 n ≡ some OrderStatus.cancelled)
    × (status_at 2 n ≡ some OrderStatus.cancelled)
    × (status_at 3 n ≡ some OrderStatus.pending)
unfolding cancel_order lookup insert market_order ◌-ℤ◌ handle_child_terminal notify_orders
    validate_order
cancelled_parent_goes_on = (refl, refl, refl)

methods_return_example :
    (is_some (submit_order whole clock ten (routed (ten ∷ []))).0 ≡ true)
    × (is_some (update_status whole clock 2 OrderStatus.filled (routed (ten ∷ []))).0 ≡ true)
    × (is_some (cancel_order whole clock 2 (routed (ten ∷ []))).0 ≡ true)
    × (is_some (activate_routed_order whole clock 2 (routed (ten ∷ []))).0 ≡ true)
    × (is_some (process_fill whole clock (fill_of 2 (pos 10)) (routed (ten ∷ []))).0 ≡ true)
methods_return_example =
    methods_return whole clock ten 2 OrderStatus.filled (fill_of 2 (pos 10)) (routed (ten ∷ []))

whole-above_zero : (x : ℤ) → (leb_ℤ x (pos 0) ≡ false) ↔ IsPositiveOrNan whole x
whole-above_zero x = (λ h. inl (ground arith), λ h. ground arith)

validate_order-ok_iff_example : (validate_order whole ten ≡ ok tt) ↔ IsAcceptable whole ten
validate_order-ok_iff_example = validate_order-ok_iff whole whole-above_zero ten

submit_order-refused_example : (submit_order whole clock no_symbol one_order).1 ≡ one_order
submit_order-refused_example =
    submit_order-refused whole clock no_symbol one_order
      (record { code = ErrorCode.invalid_argument; message = "Order symbol not set" })
      (unfold submit_order submit_order_internal validate_order route_order in refl)

submit_order-accepted_example :
    let (r, n) = submit_order whole clock ten one_order in
    (r ≡ some (ok 4))
    × (lookup 4 n.orders ≡ some (pending_copy whole clock ten one_order))
    × (n.routing_states ≡ [])
    × (n.next_order_id ≡ 5)
    × (n.log
        ≡ (order_update 7 (created_copy whole clock ten one_order) ∷ [])
          ++ (order_update 7 (pending_copy whole clock ten one_order) ∷ []))
unfolding market_order
submit_order-accepted_example =
    submit_order-accepted whole clock ten ten one_order 4 refl (unfold run_pre_submit in refl)
      (unfold validate_order market_order in refl) (unfold lookup in refl)

-- Quantity 0 is refused, and is stored all the same.
abbrev to_nothing : OrderModification ℤ
to_nothing = record {
  quantity = some (pos 0);
  limit_price = none;
  stop_price = none;
  tif = none;
  expire_at = none;
}

modify_order-Modifies_example :
    Modifies whole clock 3 to_nothing one_order
      (lookup 3 one_order.orders)
      (modify_order whole clock 3 to_nothing one_order)
modify_order-Modifies_example = modify_order-Modifies whole clock 3 to_nothing one_order

refused_change_stays :
    let (r, n) = modify_order whole clock 3 to_nothing one_order in
    (r ≡ some (fail ErrorCode.invalid_argument "Order quantity must be positive"))
    × (lookup 3 n.orders ≡ some (record (stored 3 OrderStatus.pending) { quantity = pos 0 }))
unfolding modify_order lookup insert validate_order market_order
refused_change_stays = (refl, refl)

process_fills-total_example :
    let n = process_fills whole clock (fill_of 3 (pos 4) ∷ fill_of 3 (negsuc 5) ∷ []) one_order in
    (filled_of whole clock (lookup 3 n.orders)
      ≡ some (total_filled whole clock (pos 0) (fill_of 3 (pos 4) ∷ fill_of 3 (negsuc 5) ∷ [])))
    × (length (get_fills 3 n) ≡ length (get_fills 3 one_order) + 2)
unfolding market_order
process_fills-total_example =
    process_fills-total whole clock 3 (fill_of 3 (pos 4) ∷ fill_of 3 (negsuc 5) ∷ [])
      (stored 3 OrderStatus.pending) one_order (refl, (refl, tt)) (unfold lookup in refl)
      (unfold lookup in refl)

handle_child_terminal-IsOutcome_example :
    IsOutcome whole 1 (handle_child_terminal whole 1 2 OrderStatus.filled (pos 9) (routed []))
handle_child_terminal-IsOutcome_example =
    handle_child_terminal-IsOutcome whole 1 2 OrderStatus.filled (pos 9) (routed [])

irreflexive : (x : ℤ) → ltb_ℤ x x ≡ false
irreflexive x = ground arith

handle_child_terminal-bounded_example :
    let (_, next, _) =
      handle_child_terminal whole 1 2 OrderStatus.filled (pos 9) (routed (ten ∷ [])) in
    All (λ (c : Order ℤ). ltb_ℤ (pos 10 -ℤ pos 4) c.quantity ≡ false) next
unfolding market_order
handle_child_terminal-bounded_example =
    handle_child_terminal-bounded whole irreflexive 1 2 OrderStatus.filled (pos 9)
      (routed (ten ∷ [])) (stored 1 OrderStatus.pending) (waiting (ten ∷ []) SplitMode.sequential)
      (unfold lookup in refl) (unfold lookup in refl)

report_all-IsClosed_example :
    IsClosed whole 1 (report_all whole 1 ((2, OrderStatus.rejected, pos 9) ∷ []) (routed []))
report_all-IsClosed_example =
    report_all-IsClosed whole 1 (2, OrderStatus.rejected, pos 9) [] (routed [])
      (stored 1 OrderStatus.pending) (waiting [] SplitMode.sequential) (unfold lookup in refl)
      (unfold lookup in refl) refl (refl, tt) refl
