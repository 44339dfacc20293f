-- ===== src/Live/OrderManager/State.antt =====
-- The fields of `LiveOrderManager` (include/regimeflow/live/live_order_manager.h).
--
-- A callback is named by a number, and what it is called with is appended to `log`; so are the calls of
-- the execution-quality tracker. The broker adapter is a table of functions on a state `B` of its own.
use regime_flow.Base.StringTable.{StringTable}
use regime_flow.Base.Table.{Table}
use regime_flow.Base.Int.{ℤ}
use regime_flow.Engine.Order.{Order}
use regime_flow.Engine.OrderManager.Operations.{OrderModification}
use regime_flow.Live.Order.{ExecutionReport, LiveOrder}
use regime_flow.Result.{Result, Void}
use regime_flow.Base.{List, ℕ, String, Option, suc, map, ◌++◌, ◌∷◌, []}

pub record BrokerAdapter (R B : Type 0) : Type 0 where
  pub submit_order : Order R → B → Result String × B
  pub cancel_order : String → B → Result Void × B
  pub modify_order : String → OrderModification R → B → Result Void × B
  pub get_open_orders : B → List (ExecutionReport R) × B

-- `data::Quote`
pub record Quote (R : Type 0) : Type 0 where
  pub timestamp : ℤ
  pub symbol : ℕ
  pub bid : R
  pub ask : R
  pub bid_size : R
  pub ask_size : R

pub data LiveNotice (R : Type 0) : Type 0 where
  order_update : ℕ → LiveOrder R → LiveNotice R
  execution_report : ℕ → ExecutionReport R → LiveNotice R
  record_submitted : LiveOrder R → LiveNotice R
  record_submit_rejected : ℤ → LiveNotice R
  record_execution_report : LiveOrder R → ExecutionReport R → LiveNotice R
  record_reference_quote : ℕ → Quote R → LiveNotice R

pub record LiveManager (R B : Type 0) : Type 0 where
  pub orders : Table (LiveOrder R)
  pub broker : Option (BrokerAdapter R B)
  pub broker_state : B
  pub next_order_id : ℕ
  pub duplicate_order_window_us : ℤ
  pub recent_order_keys : StringTable ℤ
  pub exec_callbacks : List ℕ
  pub order_callbacks : List ℕ
  pub clock_reads : ℕ
  pub log : List (LiveNotice R)

abbrev pub LiveAction : Type 0 → Type 0 → Type 0 → Type 0
LiveAction R B A = LiveManager R B → Result A × LiveManager R B

module _ {R B : Type 0} where
  unfoldable pub note : LiveNotice R → LiveManager R B → LiveManager R B
  note n m = record m { log = m.log ++ n ∷ [] }

  -- `for (const auto& cb : order_callbacks_) cb(order);`
  unfoldable pub notify_order : LiveOrder R → LiveManager R B → LiveManager R B
  notify_order o m = record m { log = m.log ++ map (λ cb. order_update cb o) m.order_callbacks }

  -- `for (const auto& cb : exec_callbacks_) cb(report);`
  unfoldable pub notify_report : ExecutionReport R → LiveManager R B → LiveManager R B
  notify_report r m = record m { log = m.log ++ map (λ cb. execution_report cb r) m.exec_callbacks }

  -- `Timestamp::now()`
  unfoldable pub read_clock : (ℕ → ℤ) → LiveManager R B → ℤ × LiveManager R B
  read_clock clock m = (clock m.clock_reads, record m { clock_reads = suc m.clock_reads })
