-- ===== src/Live/OrderManager/Draft.antt =====
-- The parts of `submit_order` of src/live/live_order_manager.cpp that look at the order alone: the tests,
-- the key by which a duplicate is known, and the live order that is made of it.
-- What the code takes from the C++ library and the symbol registry: `strtod`, with whether the whole text
-- is a number in range, the stream output of numbers, and the names of symbols.
use Prim.Native.String.{◌++◌ as str_append}
use text.Mathlib.Text.{◌==◌ as str_eq}
use regime_flow.Base.Int.{pos, ℤ}
use regime_flow.Base.StringTable.{find}
use regime_flow.Live.Order.{is_terminal_status, LiveOrderStatus, LiveOrder}
use regime_flow.Base.Double.{Double}
use regime_flow.Engine.Order.{Order, TimeInForce, OrderType, OrderSide}
use regime_flow.Base.{
  ◌==◌, ◌||◌, value_or, if◌then◌else◌, not, Bool, ◌∷◌, ℕ, Option, List, String, [], false, true,
  some, none,
}

pub record Formats (R : Type 0) : Type 0 where
  pub strtod : String → Option R
  pub print : R → String
  pub print_ℕ : ℕ → String
  pub symbol_name : ℕ → String

abbrev pub side_number : OrderSide → ℕ
side_number OrderSide.buy = 0
side_number OrderSide.sell = 1

abbrev pub type_number : OrderType → ℕ
type_number OrderType.market = 0
type_number OrderType.limit = 1
type_number OrderType.stop = 2
type_number OrderType.stop_limit = 3
type_number OrderType.market_on_close = 4
type_number OrderType.market_on_open = 5

abbrev pub tif_number : TimeInForce → ℕ
tif_number TimeInForce.day = 0
tif_number TimeInForce.gtc = 1
tif_number TimeInForce.ioc = 2
tif_number TimeInForce.fok = 3
tif_number TimeInForce.gtd = 4

-- The strings one after another.
abbrev pub concat : List String → String
concat [] = ""
concat (s ∷ ss) = str_append s (concat ss)

-- `existing != orders_.end() && !is_terminal_status(existing->second.status)`
unfoldable pub is_live : {R : Type 0} → Option (LiveOrder R) → Bool
is_live none = false
is_live (some live) = not (is_terminal_status live.status)

module _ (num : Double) where
  open num use {Real, nil, le}

  -- `validate_order`
  unfoldable pub prices_given : OrderType → Order Real → Bool
  prices_given OrderType.limit o = not (le o.limit_price nil)
  prices_given OrderType.stop o = not (le o.stop_price nil)
  prices_given OrderType.stop_limit o = not (le o.limit_price nil || le o.stop_price nil)
  prices_given _ o = true

  unfoldable pub is_valid_order : Order Real → Bool
  unfolding prices_given
  is_valid_order o =
      if o.symbol == 0 then false else if le o.quantity nil then false else prices_given o.type o

  module _ (formats : Formats Real) where
    open formats use {strtod, print, print_ℕ, symbol_name}

    -- `metadata_double(order, key).value_or(0.0)`
    unfoldable pub metadata_double : Order Real → String → Real
    metadata_double o key = elim (find key o.metadata) [
      | none ↦ nil
      | some text ↦ if str_eq text "" then nil else value_or (strtod text) nil
    ]

    tagged : String → Option String → String
    tagged tag none = ""
    tagged tag (some text) = str_append tag text

    unfoldable pub duplicate_key : Order Real → String
    unfolding tagged
    duplicate_key o = concat (
        print_ℕ o.symbol
        ∷ "|"
        ∷ print_ℕ (side_number o.side)
        ∷ "|"
        ∷ print_ℕ (type_number o.type)
        ∷ "|"
        ∷ print_ℕ (tif_number o.tif)
        ∷ "|"
        ∷ print o.quantity
        ∷ "|"
        ∷ print o.limit_price
        ∷ "|"
        ∷ print o.stop_price
        ∷ "|"
        ∷ o.strategy_id
        ∷ tagged "|client=" (find "client_order_id" o.metadata)
        ∷ tagged "|idem=" (find "idempotency_key" o.metadata)
        ∷ [])

    unfoldable pub live_order_of : ℕ → String → ℤ → ℤ → Order Real → LiveOrder Real
    unfolding metadata_double
    live_order_of id broker_id created submitted o = record {
      internal_id = id;
      broker_order_id = broker_id;
      broker_exec_id = "";
      symbol = symbol_name o.symbol;
      side = o.side;
      type = o.type;
      quantity = o.quantity;
      filled_quantity = nil;
      limit_price = o.limit_price;
      stop_price = o.stop_price;
      avg_fill_price = nil;
      venue = value_or (find "venue" o.metadata) "";
      expected_queue_delay_ms = metadata_double o "expected_queue_delay_ms";
      queue_position = metadata_double o "queue_position";
      status = LiveOrderStatus.pending_new;
      status_message = "";
      created_at = created;
      submitted_at = submitted;
      acked_at = pos 0;
      filled_at = pos 0;
    }
