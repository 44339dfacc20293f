-- ===== src/Live/Codec/Fields.antt =====
-- What `decode` of src/live/mq_codec.cpp reads back from the fields that `encode` gives to a payload.
use regime_flow.Live.Codec.Split.{IsLine}
use regime_flow.Common.Symbols.Laws.{intern-known, IsConsistent}
use regime_flow.Common.Symbols.{lookup_symbol, intern, SymbolRegistry}
use regime_flow.Live.Codec.Encode.{payload_fields, symbol_of, market_fields}
use regime_flow.Live.Codec.Decode.{
  decode_account, decode_position, decode_execution, decode_topic, top_level, decode_market,
}
use regime_flow.Live.Codec.{◌>>=◌, message, u64, blank_level, NumberText}
use regime_flow.Live.Order.{LiveOrderStatus}
use regime_flow.Engine.Order.{OrderSide}
use regime_flow.Base.Double.{Double}
use regime_flow.Live.Codec.Text.{topic_name, status_name, side_name, parse_status, parse_side}
use regime_flow.Base.{
  sym, subst, value_or, ap, arith, Option, [], none, ◌∷◌, List, String, ◌≡◌, get_or, refl, some,
}
use regime_flow.Base.Int.{ℤ, pos}
use regime_flow.Live.Message.{LiveTopic, Payload, MarketDataUpdate}

parse_side-side_name : (s : OrderSide) → parse_side (side_name s) ≡ s
unfolding parse_side
parse_side-side_name OrderSide.buy = refl
parse_side-side_name OrderSide.sell = refl

parse_status-status_name : (s : LiveOrderStatus) → parse_status (status_name s) ≡ s
unfolding parse_status
parse_status-status_name LiveOrderStatus.pending_new = refl
parse_status-status_name LiveOrderStatus.new = refl
parse_status-status_name LiveOrderStatus.partially_filled = refl
parse_status-status_name LiveOrderStatus.filled = refl
parse_status-status_name LiveOrderStatus.pending_cancel = refl
parse_status-status_name LiveOrderStatus.cancelled = refl
parse_status-status_name LiveOrderStatus.rejected = refl
parse_status-status_name LiveOrderStatus.expired = refl
parse_status-status_name LiveOrderStatus.inactive = refl
parse_status-status_name LiveOrderStatus.error = refl

-- The topic that goes with a payload.
abbrev pub topic_of : {R : Type 0} → Payload R → LiveTopic
topic_of Payload.monostate = LiveTopic.system
topic_of (Payload.market _) = LiveTopic.market_data
topic_of (Payload.execution _) = LiveTopic.execution_report
topic_of (Payload.position _) = LiveTopic.position_update
topic_of (Payload.account _) = LiveTopic.account_update
topic_of (Payload.text _) = LiveTopic.system

module _ (num : Double) where
  open num use {Real, nil}

  -- What a message carries over a line: a bar's number of trades and average price, a tick's flags and all
  -- of a book but the prices and quantities in front are not sent.
  abbrev pub carried_data : MarketDataUpdate Real → MarketDataUpdate Real
  carried_data (MarketDataUpdate.bar b) =
      MarketDataUpdate.bar (record b { trade_count = 0; vwap = nil })
  carried_data (MarketDataUpdate.tick t) = MarketDataUpdate.tick (record t { flags = 0 })
  carried_data (MarketDataUpdate.quote q) = MarketDataUpdate.quote q
  carried_data (MarketDataUpdate.book k) =
      let bid = get_or k.bids 0 (blank_level num) in
      let ask = get_or k.asks 0 (blank_level num) in
      MarketDataUpdate.book (record k {
        bids = top_level num bid.price bid.quantity;
        asks = top_level num ask.price ask.quantity;
      })

  abbrev pub carried : Payload Real → Payload Real
  carried (Payload.market d) = Payload.market (carried_data d)
  carried p = p

  module _ (texts : NumberText Real) where
    open texts use {print, print_ℤ, print_ℕ, stod, stoll}

    -- A number is read back from its text.
    abbrev pub Reads : Real → Type 0
    Reads x = stod (print x) ≡ some x

    abbrev pub ReadsTime : ℤ → Type 0
    ReadsTime t = stoll (print_ℤ t) ≡ some t

    abbrev pub DataReads : MarketDataUpdate Real → Type 0
    DataReads (MarketDataUpdate.bar b) =
        ReadsTime b.timestamp
        × Reads b.open_price
        × Reads b.high
        × Reads b.low
        × Reads b.close
        × (stoll (print_ℕ b.volume) ≡ some (pos b.volume))
        × (u64 b.volume ≡ b.volume)
    DataReads (MarketDataUpdate.tick t) = ReadsTime t.timestamp × Reads t.price × Reads t.quantity
    DataReads (MarketDataUpdate.quote q) =
        ReadsTime q.timestamp × Reads q.bid × Reads q.ask × Reads q.bid_size × Reads q.ask_size
    DataReads (MarketDataUpdate.book k) =
        let bid = get_or k.bids 0 (blank_level num) in
        let ask = get_or k.asks 0 (blank_level num) in
        ReadsTime k.timestamp
        × Reads bid.price
        × Reads bid.quantity
        × Reads ask.price
        × Reads ask.quantity

    -- Each number of the payload is read back from its text.
    abbrev pub PayloadReads : Payload Real → Type 0
    PayloadReads Payload.monostate = Unit
    PayloadReads (Payload.market d) = DataReads d
    PayloadReads (Payload.execution e) =
        Reads e.quantity × Reads e.price × Reads e.commission × ReadsTime e.timestamp
    PayloadReads (Payload.position p) =
        Reads p.quantity × Reads p.average_price × Reads p.market_value
    PayloadReads (Payload.account a) = Reads a.equity × Reads a.cash × Reads a.buying_power
    PayloadReads (Payload.text s) = Unit

    data_back :
        (r : SymbolRegistry) (d : MarketDataUpdate Real) (symbol : String)
        → intern symbol r ≡ (symbol_of d, r)
        → DataReads d
        → decode_market num texts r (market_fields num texts symbol d) ≡ (
          message (record {
            topic = LiveTopic.market_data;
            payload = Payload.market (carried_data d);
            origin = "";
          }),
          r,
        )
    unfolding decode_market market_fields
    data_back r (MarketDataUpdate.bar b) symbol known (t, o, h, l, c, v, w) =
        rw (known, t, o, h, l, c, v, w) refl
    data_back r (MarketDataUpdate.tick t) symbol known (d, p, q) = rw (known, d, p, q) refl
    data_back r (MarketDataUpdate.quote q) symbol known (t, b, a, bs, z) =
        rw (known, t, b, a, bs, z) refl
    data_back r (MarketDataUpdate.book k) symbol known (t, b, bs, a, z) =
        rw (known, t, b, bs, a, z) refl

    same_fields : (a b : List String) → ◌≡◌ {A = Option (List String)} (some a) (some b) → a ≡ b
    same_fields a b e = ap (λ o. value_or o []) e

    empty_last : (a b : String) → IsLine (a ∷ b ∷ "" ∷ []) → ⊥
    empty_last a b l = ground (arith, l.1.1.1)

    market_back :
        (r : SymbolRegistry) (d : MarketDataUpdate Real) (fields : List String)
        (name : Option String)
        → IsConsistent r
        → lookup_symbol (symbol_of d) r ≡ name
        → (name >>= λ symbol. some (market_fields num texts symbol d)) ≡ some fields
        → DataReads d
        → decode_market num texts r fields ≡ (
          message (record {
            topic = LiveTopic.market_data;
            payload = Payload.market (carried_data d);
            origin = "";
          }),
          r,
        )
    market_back r d fields none c k e h = absurd (ground (arith, e))
    market_back r d fields (some symbol) c k e h =
        rw (← same_fields (market_fields num texts symbol d) fields e) (
          data_back r d symbol
            (intern-known symbol r (symbol_of d) (c.known (symbol_of d) symbol k)) h)

    -- The fields of a payload, taken apart again under the payload's topic.
    pub payload_back :
        (r : SymbolRegistry) (p : Payload Real) (fields : List String)
        → IsConsistent r
        → payload_fields num texts r p ≡ some fields
        → IsLine (topic_name (topic_of p) ∷ fields)
        → PayloadReads p
        → decode_topic num texts r (topic_of p) fields
          ≡ (message (record { topic = topic_of p; payload = carried p; origin = "" }), r)
    unfolding decode_topic payload_fields
    payload_back r Payload.monostate fields c e l h = absurd (
        empty_last "SYS" "SYS"
          (subst (λ fs. IsLine ("SYS" ∷ fs)) (sym (same_fields ("SYS" ∷ "" ∷ []) fields e)) l))
    payload_back r (Payload.market d) fields c e l h =
        rw (market_back r d fields (lookup_symbol (symbol_of d) r) c refl e h) refl
    payload_back r (Payload.execution x) fields c e l h =
        rw
          (
            ← same_fields _ fields e,
            h.0,
            h.1,
            h.2,
            h.3,
            parse_side-side_name x.side,
            parse_status-status_name x.status,
            decode_execution,
          )
          refl
    payload_back r (Payload.position x) fields c e l h =
        rw (← same_fields _ fields e, h.0, h.1, h.2, decode_position) refl
    payload_back r (Payload.account x) fields c e l h =
        rw (← same_fields _ fields e, h.0, h.1, h.2, decode_account) refl
    payload_back r (Payload.text s) fields c e l h = rw (← same_fields _ fields e) refl
