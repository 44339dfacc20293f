-- ===== src/Live/Codec/RoundTrip.antt =====
-- What `decode` of src/live/mq_codec.cpp reads back from what `encode` has written.
use regime_flow.Live.Codec.Fields.{payload_back, carried, PayloadReads, topic_of}
use regime_flow.Live.Codec.Split.{split-join, IsLine}
use regime_flow.Live.Codec.Encode.{encode, payload_fields}
use regime_flow.Common.Symbols.Laws.{IsConsistent}
use regime_flow.Common.Symbols.{SymbolRegistry}
use regime_flow.Live.Codec.Decode.{decode, decode_parts}
use regime_flow.Live.Codec.{message, LiveMessage, NumberText}
use regime_flow.Base.Double.{Double}
use regime_flow.Live.Codec.Text.{join, topic_name, parse_topic}
use regime_flow.Base.{◌∙◌, ap, sym, subst, String, List, ◌≡◌, refl, some, ◌∷◌}
use regime_flow.Live.Message.{LiveTopic, Payload}

parse_topic-topic_name : (t : LiveTopic) → parse_topic (topic_name t) ≡ some t
unfolding parse_topic
parse_topic-topic_name LiveTopic.market_data = refl
parse_topic-topic_name LiveTopic.execution_report = refl
parse_topic-topic_name LiveTopic.position_update = refl
parse_topic-topic_name LiveTopic.account_update = refl
parse_topic-topic_name LiveTopic.system = refl

module _ (num : Double) where
  open num use {Real, nil}

  module _ (texts : NumberText Real) where
    parts_back :
        (r : SymbolRegistry) (topic : LiveTopic) (p : Payload Real) (fields : List String)
        → IsConsistent r
        → payload_fields num texts r p ≡ some fields
        → IsLine (topic_name topic ∷ fields)
        → topic ≡ topic_of p
        → PayloadReads num texts p
        → decode_parts num texts r (topic_name topic ∷ fields)
          ≡ (message (record { topic = topic; payload = carried num p; origin = "" }), r)
    unfolding decode_parts
    parts_back r topic p fields c e l t h =
        subst
          (λ k.
            decode_parts num texts r (topic_name k ∷ fields)
            ≡ (message (record { topic = k; payload = carried num p; origin = "" }), r))
          (sym t)
          (rw (parse_topic-topic_name (topic_of p), decode_parts)
            (payload_back num texts r p fields c e (subst (λ k. IsLine (topic_name k ∷ fields)) t l)
              h))

    -- A message whose topic goes with its payload, whose symbol is known, none of whose fields has a `|`, the
    -- last of which is not empty, and whose numbers are read back from their texts, is encoded as the line of
    -- its fields, and decoding this line gives the message back, but for what is not sent, and leaves the
    -- registry as it was.
    pub decode-encode :
        (r : SymbolRegistry) (m : LiveMessage Real) (fields : List String)
        → IsConsistent r
        → payload_fields num texts r m.payload ≡ some fields
        → IsLine (topic_name m.topic ∷ fields)
        → m.topic ≡ topic_of m.payload
        → PayloadReads num texts m.payload
        → (encode num texts r m ≡ some (join (topic_name m.topic ∷ fields)))
          × (decode num texts r (join (topic_name m.topic ∷ fields)) ≡ (
            message (record { topic = m.topic; payload = carried num m.payload; origin = "" }),
            r,
          ))
    decode-encode r m fields c e l t h = (
      unfold encode in rw e refl,
      unfold decode in
          (ap (decode_parts num texts r) (split-join (topic_name m.topic ∷ fields) l)
            ∙ parts_back r m.topic m.payload fields c e l t h),
    )
