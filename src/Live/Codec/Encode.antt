-- ===== src/Live/Codec/Encode.antt =====
-- `LiveMessageCodec::encode` of src/live/mq_codec.cpp.
use regime_flow.Live.Codec.{◌>>=◌, blank_level, LiveMessage, NumberText}
use regime_flow.Live.Codec.Text.{status_name, side_name, topic_name, join}
use regime_flow.Common.Symbols.{lookup_symbol, SymbolRegistry}
use regime_flow.Base.Double.{Double}
use regime_flow.Base.{get_or, Option, List, ℕ, String, some, ◌∷◌, []}
use regime_flow.Live.Message.{Payload, MarketDataUpdate}

abbrev pub symbol_of : {R : Type 0} → MarketDataUpdate R → ℕ
symbol_of (MarketDataUpdate.bar b) = b.symbol
symbol_of (MarketDataUpdate.tick t) = t.symbol
symbol_of (MarketDataUpdate.quote q) = q.symbol
symbol_of (MarketDataUpdate.book k) = k.symbol

module _ (num : Double) where
  open num use {Real, nil}

  module _ (texts : NumberText Real) where
    open texts use {print, print_ℤ, print_ℕ, stod, stoll}

    -- What `encode` writes of market data behind its kind and the symbol.
    unfoldable pub market_fields : String → MarketDataUpdate Real → List String
    market_fields symbol (MarketDataUpdate.bar b) =
        "BAR"
        ∷ symbol
        ∷ print_ℤ b.timestamp
        ∷ print b.open_price
        ∷ print b.high
        ∷ print b.low
        ∷ print b.close
        ∷ print_ℕ b.volume
        ∷ []
    market_fields symbol (MarketDataUpdate.tick t) =
        "TICK" ∷ symbol ∷ print_ℤ t.timestamp ∷ print t.price ∷ print t.quantity ∷ []
    market_fields symbol (MarketDataUpdate.quote q) =
        "QUOTE"
        ∷ symbol
        ∷ print_ℤ q.timestamp
        ∷ print q.bid
        ∷ print q.ask
        ∷ print q.bid_size
        ∷ print q.ask_size
        ∷ []
    market_fields symbol (MarketDataUpdate.book k) =
        let bid = get_or k.bids 0 (blank_level num) in
        let ask = get_or k.asks 0 (blank_level num) in
        "BOOK"
        ∷ symbol
        ∷ print_ℤ k.timestamp
        ∷ print bid.price
        ∷ print bid.quantity
        ∷ print ask.price
        ∷ print ask.quantity
        ∷ []

    -- What `encode` writes behind the topic; nothing stands for the exception of an unknown symbol.
    unfoldable pub payload_fields : SymbolRegistry → Payload Real → Option (List String)
    unfolding market_fields
    payload_fields r Payload.monostate = some ("SYS" ∷ "" ∷ [])
    payload_fields r (Payload.market data_update) = do
      symbol ← lookup_symbol (symbol_of data_update) r
      some (market_fields symbol data_update)
    payload_fields r (Payload.execution report) = some (
        "EXEC"
        ∷ report.broker_order_id
        ∷ report.broker_exec_id
        ∷ report.symbol
        ∷ side_name report.side
        ∷ print report.quantity
        ∷ print report.price
        ∷ print report.commission
        ∷ status_name report.status
        ∷ report.text
        ∷ print_ℤ report.timestamp
        ∷ [])
    payload_fields r (Payload.position p) =
        some
          ("POS" ∷ p.symbol ∷ print p.quantity ∷ print p.average_price ∷ print p.market_value ∷ [])
    payload_fields r (Payload.account a) =
        some ("ACCT" ∷ print a.equity ∷ print a.cash ∷ print a.buying_power ∷ [])
    payload_fields r (Payload.text s) = some ("SYS" ∷ s ∷ [])

    unfoldable pub encode : SymbolRegistry → LiveMessage Real → Option String
    unfolding payload_fields join
    encode r m = do fields ← payload_fields r m.payload; some (join (topic_name m.topic ∷ fields))
