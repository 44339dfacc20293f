-- ===== src/Live/Message.antt =====
-- The messages of live trading: include/regimeflow/live/event_bus.h and include/regimeflow/live/types.h, with
-- the order book of include/regimeflow/data/order_book.h.
use regime_flow.Live.OrderManager.State.{Quote}
use regime_flow.Live.Order.{ExecutionReport}
use regime_flow.Data.Bars.{Tick, Bar}
use regime_flow.Base.Int.{ℤ}
use regime_flow.Base.{List, String, ℕ}

pub data LiveTopic : Type 0 where
  market_data execution_report position_update account_update system : LiveTopic

pub record BookLevel (R : Type 0) : Type 0 where
  pub price : R
  pub quantity : R
  pub num_orders : ℕ

-- The two arrays are lists of ten.
pub record OrderBook (R : Type 0) : Type 0 where
  pub timestamp : ℤ
  pub symbol : ℕ
  pub bids : List (BookLevel R)
  pub asks : List (BookLevel R)

pub record Position (R : Type 0) : Type 0 where
  pub symbol : String
  pub quantity : R
  pub average_price : R
  pub market_value : R

pub record AccountInfo (R : Type 0) : Type 0 where
  pub equity : R
  pub cash : R
  pub buying_power : R

-- `MarketDataUpdate`
pub data MarketDataUpdate (R : Type 0) : Type 0 where
  bar : Bar R → MarketDataUpdate R
  tick : Tick R → MarketDataUpdate R
  quote : Quote R → MarketDataUpdate R
  book : OrderBook R → MarketDataUpdate R

-- The variant of `LiveMessage`; `monostate` is the first.
pub data Payload (R : Type 0) : Type 0 where
  monostate : Payload R
  market : MarketDataUpdate R → Payload R
  execution : ExecutionReport R → Payload R
  position : Position R → Payload R
  account : AccountInfo R → Payload R
  text : String → Payload R

pub record LiveMessage (R : Type 0) : Type 0 where
  pub topic : LiveTopic
  pub payload : Payload R
  pub origin : String
