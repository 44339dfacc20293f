-- ===== src/Events/Event.antt =====
-- include/regimeflow/events/event.h and dispatcher.h. The market data of an event (a bar, tick, quote or
-- order book) is of a type `D`, and doubles are in `R`: nothing here looks into either.
use regime_flow.Base.Int.{ℤ}
use regime_flow.Base.{String, Bool, Option, ℕ, some, none}

pub data EventType : Type 0 where
  market order system user : EventType

pub data MarketEventKind : Type 0 where
  bar tick quote book : MarketEventKind

pub data OrderEventKind : Type 0 where
  new_order fill cancel reject update : OrderEventKind

pub data SystemEventKind : Type 0 where
  day_start end_of_day timer regime_change trading_halt trading_resume : SystemEventKind

pub record OrderEventPayload (R : Type 0) : Type 0 where
  pub kind : OrderEventKind
  pub order_id : ℕ
  pub parent_order_id : ℕ
  pub fill_id : ℕ
  pub quantity : R
  pub price : R
  pub commission : R
  pub transaction_cost : R
  pub is_maker : Bool
  pub venue : String

pub data EventPayload (D R : Type 0) : Type 0 where
  monostate : EventPayload D R
  market_payload : MarketEventKind → D → EventPayload D R
  order_payload : OrderEventPayload R → EventPayload D R
  system_payload : SystemEventKind → ℤ → String → EventPayload D R

pub record Event (D R : Type 0) : Type 0 where
  pub timestamp : ℤ
  pub type : EventType
  pub priority : ℕ
  pub sequence : ℕ
  pub symbol : ℕ
  pub payload : EventPayload D R

abbrev pub system_priority : ℕ
system_priority = 0

abbrev pub market_priority : ℕ
market_priority = 10

abbrev pub order_priority : ℕ
order_priority = 20

abbrev pub user_priority : ℕ
user_priority = 30

unfoldable pub default_priority : EventType → ℕ
default_priority EventType.system = system_priority
default_priority EventType.market = market_priority
default_priority EventType.order = order_priority
default_priority EventType.user = user_priority

module _ {D R : Type 0} where
  -- The four `make_market_event`, by the kind of the data.
  unfoldable pub make_market_event : MarketEventKind → D → ℤ → ℕ → Event D R
  make_market_event kind payload timestamp symbol = record {
    timestamp = timestamp;
    type = EventType.market;
    priority = market_priority;
    sequence = 0;
    symbol = symbol;
    payload = market_payload kind payload;
  }

  unfoldable pub make_system_event : SystemEventKind → ℤ → ℤ → String → Event D R
  make_system_event kind timestamp code id = record {
    timestamp = timestamp;
    type = EventType.system;
    priority = system_priority;
    sequence = 0;
    symbol = 0;
    payload = system_payload kind code id;
  }

  unfoldable pub make_order_event : OrderEventPayload R → ℤ → ℕ → Event D R
  make_order_event payload timestamp symbol = record {
    timestamp = timestamp;
    type = EventType.order;
    priority = order_priority;
    sequence = 0;
    symbol = symbol;
    payload = order_payload payload;
  }

-- `EventDispatcher`: at most one handler for each type of event. A handler changes a state `S`.
pub record EventDispatcher (D R S : Type 0) : Type 0 where
  pub market_handler : Option (Event D R → S → S)
  pub order_handler : Option (Event D R → S → S)
  pub system_handler : Option (Event D R → S → S)
  pub user_handler : Option (Event D R → S → S)

module _ {D R S : Type 0} where
  unfoldable pub handle : Option (Event D R → S → S) → Event D R → S → S
  handle none e s = s
  handle (some h) e s = h e s

  unfoldable pub handler_for : EventDispatcher D R S → EventType → Option (Event D R → S → S)
  handler_for d EventType.market = d.market_handler
  handler_for d EventType.order = d.order_handler
  handler_for d EventType.system = d.system_handler
  handler_for d EventType.user = d.user_handler

  unfoldable pub dispatch : EventDispatcher D R S → Event D R → S → S
  unfolding handle handler_for
  dispatch d e s = handle (handler_for d e.type) e s
