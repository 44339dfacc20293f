-- ===== src/Live/Order.antt =====
-- The live order of include/regimeflow/live/live_order_manager.h, the execution report of
-- include/regimeflow/live/broker_adapter.h, and the state machine that the first follows on the second
-- (`is_valid_transition`, `is_terminal_status` and `update_order_state` of src/live/live_order_manager.cpp).
pub mod Transitions
use Prim.Native.String.{◌++◌ as str_append}
use regime_flow.Base.Int.{ltb_ℤ, pos, ℤ}
use regime_flow.Base.Double.{Double}
use regime_flow.Engine.Order.{OrderSide, OrderType}
use regime_flow.Base.{◌==◌, Bool, String, ℕ, ◌||◌, if◌then◌else◌, true, false}

pub data LiveOrderStatus : Type 0 where
  pending_new new partially_filled filled pending_cancel cancelled rejected expired inactive error :
      LiveOrderStatus

-- `LiveOrder`; its strategy and regime, which nothing in the manager writes or reads, are left out.
pub record LiveOrder (R : Type 0) : Type 0 where
  pub internal_id : ℕ
  pub broker_order_id : String
  pub broker_exec_id : String
  pub symbol : String
  pub side : OrderSide
  pub type : OrderType
  pub quantity : R
  pub filled_quantity : R
  pub limit_price : R
  pub stop_price : R
  pub avg_fill_price : R
  pub venue : String
  pub expected_queue_delay_ms : R
  pub queue_position : R
  pub status : LiveOrderStatus
  pub status_message : String
  pub created_at : ℤ
  pub submitted_at : ℤ
  pub acked_at : ℤ
  pub filled_at : ℤ

pub record ExecutionReport (R : Type 0) : Type 0 where
  pub broker_order_id : String
  pub broker_exec_id : String
  pub symbol : String
  pub side : OrderSide
  pub quantity : R
  pub price : R
  pub commission : R
  pub status : LiveOrderStatus
  pub text : String
  pub timestamp : ℤ

-- The value of the enumerator.
abbrev code : LiveOrderStatus → ℕ
code pending_new = 0
code new = 1
code partially_filled = 2
code filled = 3
code pending_cancel = 4
code cancelled = 5
code rejected = 6
code expired = 7
code inactive = 8
code error = 9

-- `from == to`
abbrev pub same_status : LiveOrderStatus → LiveOrderStatus → Bool
same_status from to = code from == code to

unfoldable pub status_name : LiveOrderStatus → String
status_name pending_new = "PendingNew"
status_name new = "New"
status_name partially_filled = "PartiallyFilled"
status_name filled = "Filled"
status_name pending_cancel = "PendingCancel"
status_name cancelled = "Cancelled"
status_name rejected = "Rejected"
status_name expired = "Expired"
status_name inactive = "Inactive"
status_name error = "Error"

unfoldable pub is_terminal_status : LiveOrderStatus → Bool
is_terminal_status filled = true
is_terminal_status cancelled = true
is_terminal_status rejected = true
is_terminal_status expired = true
is_terminal_status inactive = true
is_terminal_status error = true
is_terminal_status _ = false

-- The `switch` of `is_valid_transition`.
unfoldable pub is_listed : LiveOrderStatus → LiveOrderStatus → Bool
unfolding is_terminal_status
is_listed pending_new to =
    same_status to new || same_status to partially_filled || is_terminal_status to
is_listed new to = same_status to partially_filled || is_terminal_status to
is_listed partially_filled to = same_status to partially_filled || is_terminal_status to
is_listed pending_cancel filled = false
is_listed pending_cancel to = is_terminal_status to
is_listed _ to = false

unfoldable pub is_valid_transition : LiveOrderStatus → LiveOrderStatus → Bool
unfolding is_listed
is_valid_transition from to = if same_status from to then true else is_listed from to

-- `status == PartiallyFilled || status == Filled`
abbrev pub carries_fill : LiveOrderStatus → Bool
carries_fill partially_filled = true
carries_fill filled = true
carries_fill _ = false

unfoldable pub transition_message : LiveOrderStatus → LiveOrderStatus → String
unfolding status_name
transition_message from to =
    str_append "Invalid transition from "
      (str_append (status_name from) (str_append " to " (status_name to)))

module _ (num : Double) where
  open num use {Real, nil, add, mul, div, lt}

  -- `order.filled_quantity += report.quantity;` and the average price after it.
  unfoldable pub apply_fill : ExecutionReport Real → LiveOrder Real → LiveOrder Real
  apply_fill report order =
      let filled = add order.filled_quantity report.quantity in
      let total_value =
        add (mul order.avg_fill_price order.filled_quantity) (mul report.price report.quantity) in
      record order {
        filled_quantity = filled;
        avg_fill_price = if lt nil filled then div total_value filled else order.avg_fill_price;
        filled_at =
            if same_status report.status LiveOrderStatus.filled
            then report.timestamp
            else order.filled_at;
      }

  -- What a report that is allowed sets.
  unfoldable pub accept_report : ExecutionReport Real → LiveOrder Real → LiveOrder Real
  unfolding apply_fill
  accept_report report order =
      let taken = record order {
        broker_exec_id = report.broker_exec_id;
        status = report.status;
        status_message = report.text;
        acked_at = if ltb_ℤ (pos 0) report.timestamp then report.timestamp else order.acked_at;
      } in
      if carries_fill report.status then apply_fill report taken else taken

  unfoldable pub update_order_state : ExecutionReport Real → LiveOrder Real → LiveOrder Real
  unfolding accept_report is_valid_transition transition_message
  update_order_state report order =
      if is_valid_transition order.status report.status
      then accept_report report order
      else record order {
        status = error;
        status_message = transition_message order.status report.status;
      }
