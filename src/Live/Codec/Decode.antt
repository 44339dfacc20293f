-- ===== src/Live/Codec/Decode.antt =====
-- `LiveMessageCodec::decode` of src/live/mq_codec.cpp.
use regime_flow.Live.Codec.{
  ◌>>=◌, volume_of, blank_level, nullopt, message, thrown, Decoded, BookLevel, NumberText,
}
use regime_flow.Live.Codec.Text.{parse_status, split, parse_topic, parse_side}
use regime_flow.Common.Symbols.{intern, SymbolRegistry}
use regime_flow.Base.Double.{Double}
use regime_flow.Base.{replicate, if◌then◌else◌, set, String, ℕ, Option, List, some, none, ◌∷◌, []}
use regime_flow.Live.Message.{LiveMessage, LiveTopic, Payload, MarketDataUpdate}
use text.Mathlib.Text.{◌==◌ as str_eq}

module _ (num : Double) where
  open num use {Real, nil}

  -- One side of a new book, with this level in front.
  abbrev pub top_level : Real → Real → List (BookLevel Real)
  top_level price quantity =
      set (replicate 10 (blank_level num)) 0
        (record { price = price; quantity = quantity; num_orders = 0 })

  abbrev returned : Option (LiveMessage Real) → Decoded Real
  returned none = thrown
  returned (some m) = message m

  abbrev sent : LiveTopic → Payload Real → LiveMessage Real
  sent topic payload = record { topic = topic; payload = payload; origin = "" }

  module _ (texts : NumberText Real) where
    open texts use {print, print_ℤ, print_ℕ, stod, stoll}

    -- The branch for each kind; too few fields are none of them.
    unfoldable pub decode_bar : ℕ → List String → Decoded Real
    decode_bar id (time ∷ open_price ∷ high ∷ low ∷ close ∷ volume ∷ _) = returned (do
      t ← stoll time
      o ← stod open_price
      h ← stod high
      l ← stod low
      c ← stod close
      v ← stoll volume
      some (
          sent LiveTopic.market_data (
            Payload.market (
              MarketDataUpdate.bar (record {
                timestamp = t;
                symbol = id;
                open_price = o;
                high = h;
                low = l;
                close = c;
                volume = volume_of v;
                trade_count = 0;
                vwap = nil;
              })))))
    decode_bar id _ = nullopt

    unfoldable pub decode_tick : ℕ → List String → Decoded Real
    decode_tick id (time ∷ price ∷ quantity ∷ _) = returned (do
      t ← stoll time
      p ← stod price
      q ← stod quantity
      some (
          sent LiveTopic.market_data (
            Payload.market (
              MarketDataUpdate.tick
                (record { timestamp = t; symbol = id; price = p; quantity = q; flags = 0 })))))
    decode_tick id _ = nullopt

    unfoldable pub decode_quote : ℕ → List String → Decoded Real
    decode_quote id (time ∷ bid ∷ ask ∷ bid_size ∷ ask_size ∷ _) = returned (do
      t ← stoll time
      b ← stod bid
      a ← stod ask
      bs ← stod bid_size
      z ← stod ask_size
      some (
          sent LiveTopic.market_data (
            Payload.market (
              MarketDataUpdate.quote (record {
                timestamp = t;
                symbol = id;
                bid = b;
                ask = a;
                bid_size = bs;
                ask_size = z;
              })))))
    decode_quote id _ = nullopt

    unfoldable pub decode_book : ℕ → List String → Decoded Real
    decode_book id (time ∷ bid ∷ bid_size ∷ ask ∷ ask_size ∷ _) = returned (do
      t ← stoll time
      b ← stod bid
      bs ← stod bid_size
      a ← stod ask
      z ← stod ask_size
      some (
          sent LiveTopic.market_data (
            Payload.market (
              MarketDataUpdate.book (record {
                timestamp = t;
                symbol = id;
                bids = top_level b bs;
                asks = top_level a z;
              })))))
    decode_book id _ = nullopt

    unfoldable pub decode_market : SymbolRegistry → List String → Decoded Real × SymbolRegistry
    unfolding decode_bar decode_tick decode_quote decode_book
    decode_market r (kind ∷ symbol ∷ fields) =
        let (id, r') = intern symbol r in
        (
          if str_eq kind "BAR"
              then decode_bar id fields
              else if str_eq kind "TICK"
              then decode_tick id fields
              else if str_eq kind "QUOTE"
              then decode_quote id fields
              else if str_eq kind "BOOK"
              then decode_book id fields
              else nullopt,
          r',
        )
    decode_market r _ = (nullopt, r)

    unfoldable pub decode_execution : List String → Decoded Real
    unfolding parse_side parse_status
    decode_execution
          (kind ∷ order_id ∷ exec_id ∷ symbol ∷ side ∷ quantity ∷ price ∷ commission ∷ status ∷ text
            ∷ time ∷ _) =
        if str_eq kind "EXEC"
        then returned (do
          q ← stod quantity
          p ← stod price
          c ← stod commission
          t ← stoll time
          some (
              sent LiveTopic.execution_report (
                Payload.execution (record {
                  broker_order_id = order_id;
                  broker_exec_id = exec_id;
                  symbol = symbol;
                  side = parse_side side;
                  quantity = q;
                  price = p;
                  commission = c;
                  status = parse_status status;
                  text = text;
                  timestamp = t;
                }))))
        else nullopt
    decode_execution _ = nullopt

    unfoldable pub decode_position : List String → Decoded Real
    decode_position (kind ∷ symbol ∷ quantity ∷ average_price ∷ market_value ∷ _) =
        if str_eq kind "POS"
        then returned (do
          q ← stod quantity
          p ← stod average_price
          v ← stod market_value
          some (
              sent LiveTopic.position_update (
                Payload.position
                  (record { symbol = symbol; quantity = q; average_price = p; market_value = v }))))
        else nullopt
    decode_position _ = nullopt

    unfoldable pub decode_account : List String → Decoded Real
    decode_account (kind ∷ equity ∷ cash ∷ buying_power ∷ _) =
        if str_eq kind "ACCT"
        then returned (do
          e ← stod equity
          c ← stod cash
          b ← stod buying_power
          some (
              sent LiveTopic.account_update
                (Payload.account (record { equity = e; cash = c; buying_power = b }))))
        else nullopt
    decode_account _ = nullopt

    -- The kind of a system message is not looked at.
    unfoldable pub decode_system : List String → Decoded Real
    decode_system (kind ∷ text ∷ _) = message (sent LiveTopic.system (Payload.text text))
    decode_system _ = nullopt

    unfoldable pub decode_topic :
        SymbolRegistry → LiveTopic → List String → Decoded Real × SymbolRegistry
    unfolding decode_market decode_execution decode_position decode_account decode_system
    decode_topic r LiveTopic.market_data fields = decode_market r fields
    decode_topic r LiveTopic.execution_report fields = (decode_execution fields, r)
    decode_topic r LiveTopic.position_update fields = (decode_position fields, r)
    decode_topic r LiveTopic.account_update fields = (decode_account fields, r)
    decode_topic r LiveTopic.system fields = (decode_system fields, r)

    unfoldable pub decode_parts : SymbolRegistry → List String → Decoded Real × SymbolRegistry
    unfolding decode_topic parse_topic
    decode_parts r [] = (nullopt, r)
    decode_parts r (part ∷ fields) = elim (parse_topic part) [
      | none ↦ (nullopt, r)
      | some topic ↦ decode_topic r topic fields
    ]

    unfoldable pub decode : SymbolRegistry → String → Decoded Real × SymbolRegistry
    unfolding split decode_parts
    decode r payload = decode_parts r (split payload)
