-- ===== src/Common/Json/Tests.antt =====
-- The parser of src/common/json.cpp on small texts, with the numbers 0 and 1.
use regime_flow.Base.{
  ◌==◌, ◌≡◌, ◌++◌, if◌then◌else◌, length, Bool, List, ℕ, refl, false, true, ◌∷◌, [],
}
use regime_flow.Common.Json.{JsonValue, JsonArray, JsonObject, parsed, failed, overread}
use regime_flow.Common.Json.Values.{kind_of, same_key, parse_json}
use regime_flow.Common.Json.Written.{put}
use regime_flow.Common.Json.Heads.{Stops, IsNumberText}
use regime_flow.Common.Json.RoundTrip.{parse_json-put}

abbrev bit_text : Bool → List ℕ
bit_text false = b'0' ∷ []
bit_text true = b'1' ∷ []

abbrev read_bit : List ℕ → Bool × ℕ
read_bit [] = (false, 0)
read_bit (c ∷ s) = if c == b'0' then (false, 1) else if c == b'1' then (true, 1) else (false, 0)

bit_text-IsNumberText : (b : Bool) → IsNumberText (bit_text b)
unfolding kind_of
bit_text-IsNumberText false = refl
bit_text-IsNumberText true = refl

read_bit-bit_text :
    (b : Bool) (rest : List ℕ)
    → Stops rest
    → read_bit (bit_text b ++ rest) ≡ (b, length (bit_text b))
read_bit-bit_text false rest h = refl
read_bit-bit_text true rest h = refl

-- {"a":[1,"\""],"b":null}
abbrev sample : JsonValue Bool
sample = JsonValue.object (
    JsonObject.field (b'a' ∷ [])
      (JsonValue.array (
        JsonArray.item (JsonValue.number true)
          (JsonArray.item (JsonValue.string (34 ∷ [])) JsonArray.no_items)))
      (JsonObject.field (b'b' ∷ []) JsonValue.null JsonObject.no_fields))

parse_json-put_example : parse_json read_bit (put bit_text sample []) ≡ parsed sample []
unfolding same_key
parse_json-put_example =
    parse_json-put bit_text read_bit bit_text-IsNumberText read_bit-bit_text sample
      ((refl, tt), (tt, (tt, tt)), (tt, tt, tt))

-- White space may stand anywhere, and a number may follow nothing but a separator.
array_with_space :
    parse_json read_bit (32 ∷ b'[' ∷ 10 ∷ b'0' ∷ 32 ∷ b']' ∷ 9 ∷ [])
    ≡ parsed (JsonValue.array (JsonArray.item (JsonValue.number false) JsonArray.no_items)) []
unfolding parse_json
array_with_space = refl

-- The first of two equal keys stays.
first_key_stays :
    parse_json read_bit
      (b'{' ∷ 34 ∷ b'a' ∷ 34 ∷ b':' ∷ b'0' ∷ b',' ∷ 34 ∷ b'a' ∷ 34 ∷ b':' ∷ b'1' ∷ b'}' ∷ [])
    ≡ parsed
        (JsonValue.object
          (JsonObject.field (b'a' ∷ []) (JsonValue.number false) JsonObject.no_fields))
        []
unfolding parse_json
first_key_stays = refl

extra_refused : parse_json read_bit (b'1' ∷ b'1' ∷ []) ≡ failed "Extra data after JSON value"
unfolding parse_json
extra_refused = refl

-- Behind a comma the parser looks for a key at once, also at the end of the text.
key_behind_the_end :
    parse_json read_bit (b'{' ∷ 34 ∷ b'a' ∷ 34 ∷ b':' ∷ b'1' ∷ b',' ∷ 32 ∷ []) ≡ overread
unfolding parse_json
key_behind_the_end = refl
