-- ===== src/Live/Codec/Tests.antt =====
-- Lines of src/live/mq_codec.cpp for small messages. The texts of numbers are those of a few numbers.
use regime_flow.Live.Codec.Fields.{carried}
use regime_flow.Live.Codec.RoundTrip.{decode-encode}
use regime_flow.Live.Codec.Text.{join}
use regime_flow.Base.StringTable.{put, find}
use regime_flow.Base.Double.{whole}
use regime_flow.Live.Codec.Decode.{decode}
use regime_flow.Live.Codec.Encode.{encode, payload_fields}
use regime_flow.Common.Symbols.Laws.{empty_registry-IsConsistent, intern-Interns, IsConsistent}
use regime_flow.Common.Symbols.{empty_registry, lookup_symbol, intern, SymbolRegistry}
use regime_flow.Live.Codec.{message, nullopt, NumberText}
use regime_flow.Base.{
  ◌==◌, arith, ◌≡◌, if◌then◌else◌, List, Option, String, ℕ, refl, some, none, ◌∷◌, [],
}
use regime_flow.Base.Int.{pos_part, ℤ, pos}
use regime_flow.Live.Message.{LiveMessage, LiveTopic, Payload, MarketDataUpdate}
use text.Mathlib.Text.{◌==◌ as str_eq}

abbrev digit : ℕ → String
digit n = if n == 1 then "1" else if n == 2 then "2" else "0"

abbrev read_digit : String → Option ℕ
read_digit s =
    if str_eq s "1"
    then some 1
    else if str_eq s "2"
    then some 2
    else if str_eq s "0"
    then some 0
    else none

abbrev integer : Option ℕ → Option ℤ
integer none = none
integer (some n) = some (pos n)

abbrev digits : NumberText ℤ
digits = record {
  print = λ x. digit (pos_part x);
  print_ℤ = λ x. digit (pos_part x);
  print_ℕ = digit;
  stod = λ s. integer (read_digit s);
  stoll = λ s. integer (read_digit s);
}

abbrev one_symbol : SymbolRegistry
one_symbol = (intern "AAPL" empty_registry).1

one_symbol-IsConsistent : IsConsistent one_symbol
one_symbol-IsConsistent =
    (intern-Interns "AAPL" empty_registry empty_registry-IsConsistent (omega arith)).3

abbrev a_tick : LiveMessage ℤ
a_tick = record {
  topic = LiveTopic.market_data;
  payload = Payload.market (
      MarketDataUpdate.tick
        (record { timestamp = pos 1; symbol = 1; price = pos 2; quantity = pos 1; flags = 7 }));
  origin = "feed";
}

abbrev tick_fields : List String
tick_fields = "TICK" ∷ "AAPL" ∷ "1" ∷ "2" ∷ "1" ∷ []

decode-encode_example :
    (encode whole digits one_symbol a_tick ≡ some (join ("MD" ∷ tick_fields)))
    × (decode whole digits one_symbol (join ("MD" ∷ tick_fields)) ≡ (
      message (record {
        topic = LiveTopic.market_data;
        payload = carried whole a_tick.payload;
        origin = "";
      }),
      one_symbol,
    ))
unfolding payload_fields lookup_symbol intern find put
decode-encode_example =
    decode-encode whole digits one_symbol a_tick tick_fields one_symbol-IsConsistent refl
      (refl, (refl, (refl, (refl, (refl, (refl, refl)))))) refl (refl, refl, refl)

-- A system message without text is lost: the line of it has two fields only.
empty_text_lost : (decode whole digits one_symbol "SYS|SYS|").0 ≡ nullopt
unfolding decode
empty_text_lost = refl

-- What stands behind a `|` in a text is cut off.
text_cut :
    (decode whole digits one_symbol "SYS|SYS|a|b").0
    ≡ message (record { topic = LiveTopic.system; payload = Payload.text "a"; origin = "" })
unfolding decode
text_cut = refl
