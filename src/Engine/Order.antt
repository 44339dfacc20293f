-- ===== src/Engine/Order.antt =====
-- include/regimeflow/engine/order.h, src/engine/order.cpp and the data types of order_routing.h.
-- Identifiers are `uint64_t`, times are microseconds, prices and quantities are doubles, in `R`.
use regime_flow.Base.{ℕ, Bool, false, Option, List, [], String}
use regime_flow.Base.Int.{ℤ, pos}
use regime_flow.Base.Double.{Double}

pub data OrderSide : Type 0 where
  buy sell : OrderSide

pub data OrderType : Type 0 where
  market limit stop stop_limit market_on_close market_on_open : OrderType

pub data TimeInForce : Type 0 where
  day gtc ioc fok gtd : TimeInForce

pub data OrderStatus : Type 0 where
  created pending partially_filled filled cancelled rejected invalid : OrderStatus

pub record Order (R : Type 0) : Type 0 where
  pub id : ℕ
  pub parent_id : ℕ
  pub symbol : ℕ
  pub side : OrderSide
  pub type : OrderType
  pub tif : TimeInForce
  pub quantity : R
  pub filled_quantity : R
  pub limit_price : R
  pub stop_price : R
  pub avg_fill_price : R
  pub status : OrderStatus
  pub created_at : ℤ
  pub updated_at : ℤ
  pub expire_at : Option ℤ
  pub is_parent : Bool
  pub strategy_id : String
  pub metadata : List (String × String)

pub record Fill (R : Type 0) : Type 0 where
  pub id : ℕ
  pub order_id : ℕ
  pub parent_order_id : ℕ
  pub symbol : ℕ
  pub quantity : R
  pub price : R
  pub timestamp : ℤ
  pub commission : R
  pub transaction_cost : R
  pub slippage : R
  pub is_maker : Bool
  pub venue : String

pub data SplitMode : Type 0 where
  none parallel sequential : SplitMode

pub data ParentAggregation : Type 0 where
  none final partial : ParentAggregation

pub record RoutingContext (R : Type 0) : Type 0 where
  pub bid : Option R
  pub ask : Option R
  pub last : Option R

pub record RoutingPlan (R : Type 0) : Type 0 where
  pub routed_order : Order R
  pub children : List (Order R)
  pub split_mode : SplitMode
  pub parent_aggregation : ParentAggregation

module _ (num : Double) where
  open num use {Real, nil}

  -- `Order order;`, every field at its default
  blank : Order Real
  blank = record {
    id = 0;
    parent_id = 0;
    symbol = 0;
    side = buy;
    type = market;
    tif = day;
    quantity = nil;
    filled_quantity = nil;
    limit_price = nil;
    stop_price = nil;
    avg_fill_price = nil;
    status = created;
    created_at = pos 0;
    updated_at = pos 0;
    expire_at = Option.none;
    is_parent = false;
    strategy_id = "";
    metadata = [];
  }

  -- `Order::market`
  unfoldable pub market_order : ℕ → OrderSide → Real → Order Real
  unfolding blank
  market_order symbol side qty = record blank {
    symbol = symbol;
    side = side;
    type = market;
    quantity = qty;
  }

  -- `Order::limit`
  unfoldable pub limit_order : ℕ → OrderSide → Real → Real → Order Real
  unfolding blank
  limit_order symbol side qty price = record blank {
    symbol = symbol;
    side = side;
    type = limit;
    quantity = qty;
    limit_price = price;
  }

  -- `Order::stop`
  unfoldable pub stop_order : ℕ → OrderSide → Real → Real → Order Real
  unfolding blank
  stop_order symbol side qty trigger = record blank {
    symbol = symbol;
    side = side;
    type = stop;
    quantity = qty;
    stop_price = trigger;
  }
