-- ===== src/Common/Json/Values.antt =====
-- The rest of the parser of src/common/json.cpp. `parse_array` and `parse_object` are called on their opening
-- bracket only, so that it is not looked at again.
use regime_flow.Base.{
  ltb, ◌+◌, ◌&&◌, ◌||◌, length, is_empty, ◌==◌, ◌*◌, Bool, Option, if◌then◌else◌, drop, List, ℕ,
  suc, zero, false, true, some, none, ◌∷◌, [],
}
use regime_flow.Common.Json.{
  JsonValue, JsonArray, JsonObject, Parsed, parsed, failed, overread, out_of_fuel, is_digit,
  skip_ws, strip,
}
use regime_flow.Common.Json.Strings.{parse_string_raw}

-- By its first byte, which `parse_*` a value is for.
pub data Kind : Type 0 where
  object array string bool null number invalid : Kind

unfoldable pub kind_of : ℕ → Kind
kind_of c =
    if c == b'{'
    then Kind.object
    else if c == b'['
    then Kind.array
    else if c == 34
    then Kind.string
    else if (c == b't') || (c == b'f')
    then Kind.bool
    else if c == b'n'
    then Kind.null
    else if (c == b'-') || is_digit c
    then Kind.number
    else Kind.invalid

-- What stands behind an item: nothing, a comma, the closing bracket or something else.
pub data Separator : Type 0 where
  nothing : Separator
  comma : List ℕ → Separator
  closing : List ℕ → Separator
  other : Separator

unfoldable pub separator : ℕ → List ℕ → Separator
separator bracket [] = nothing
separator bracket (c ∷ s) = if c == b',' then comma s else if c == bracket then closing s else other

-- What follows the byte `k`, if the text has it in front.
unfoldable pub accept : ℕ → List ℕ → Option (List ℕ)
accept k [] = none
accept k (c ∷ s) = if c == k then some s else none

unfoldable pub same_key : List ℕ → List ℕ → Bool
same_key [] [] = true
same_key (c ∷ k) (d ∷ l) = (c == d) && same_key k l
same_key _ _ = false

module _ {R : Type 0} where
  -- `array.push_back`
  unfoldable pub push_back : JsonArray R → JsonValue R → JsonArray R
  push_back JsonArray.no_items v = JsonArray.item v JsonArray.no_items
  push_back (JsonArray.item w a) v = JsonArray.item w (push_back a v)

  -- `object.emplace`, which leaves a key that is there as it is.
  unfoldable pub emplace : JsonObject R → List ℕ → JsonValue R → JsonObject R
  unfolding same_key
  emplace JsonObject.no_fields k v = JsonObject.field k v JsonObject.no_fields
  emplace (JsonObject.field l w o) k v =
      if same_key l k then JsonObject.field l w o else JsonObject.field l w (emplace o k v)

  unfoldable pub parse_null : List ℕ → Parsed (JsonValue R)
  unfolding strip
  parse_null s = elim (strip (b'n' ∷ b'u' ∷ b'l' ∷ b'l' ∷ []) s) [
    | none ↦ failed "Invalid JSON null"
    | some r ↦ parsed JsonValue.null r
  ]

  unfoldable pub parse_bool : List ℕ → Parsed (JsonValue R)
  unfolding strip
  parse_bool s = elim (strip (b't' ∷ b'r' ∷ b'u' ∷ b'e' ∷ []) s) [
    | some r ↦ parsed (JsonValue.bool true) r
    | none ↦ elim (strip (b'f' ∷ b'a' ∷ b'l' ∷ b's' ∷ b'e' ∷ []) s) [
      | some r ↦ parsed (JsonValue.bool false) r
      | none ↦ failed "Invalid JSON boolean"
    ]
  ]

  unfoldable pub parse_number : (List ℕ → R × ℕ) → List ℕ → Parsed (JsonValue R)
  unfolding drop
  parse_number strtod s =
      let (value, n) = strtod s in
      if (n == 0) || ltb (length s) n
      then failed "Invalid JSON number"
      else parsed (JsonValue.number value) (drop n s)

  unfoldable pub as_string : Parsed (List ℕ) → Parsed (JsonValue R)
  as_string (parsed raw s) = parsed (JsonValue.string raw) s
  as_string (failed message) = failed message
  as_string overread = overread
  as_string out_of_fuel = out_of_fuel

module _ {R : Type 0} (strtod : List ℕ → R × ℕ) where
  unfoldable mutual
    unfolding kind_of separator accept push_back emplace parse_null parse_bool parse_number
        as_string skip_ws parse_string_raw

    pub parse_value : ℕ → List ℕ → Parsed (JsonValue R)
    parse_value zero s = out_of_fuel
    parse_value (suc f) [] = failed "Unexpected end of JSON"
    parse_value (suc f) (c ∷ s) = elim (kind_of c) [
      | object ↦ parse_object f (skip_ws s)
      | array ↦ parse_array f (skip_ws s)
      | string ↦ as_string (parse_string_raw (c ∷ s))
      | bool ↦ parse_bool (c ∷ s)
      | null ↦ parse_null (c ∷ s)
      | number ↦ parse_number strtod (c ∷ s)
      | invalid ↦ failed "Invalid JSON token"
    ]

    pub parse_array : ℕ → List ℕ → Parsed (JsonValue R)
    parse_array zero s = out_of_fuel
    parse_array (suc f) s = elim (accept b']' s) [
      | some r ↦ parsed (JsonValue.array JsonArray.no_items) r
      | none ↦ array_loop f JsonArray.no_items s
    ]

    -- `while (cur_ < end_)` of `parse_array`
    pub array_loop : ℕ → JsonArray R → List ℕ → Parsed (JsonValue R)
    array_loop zero items s = out_of_fuel
    array_loop (suc f) items [] = failed "Unterminated JSON array"
    array_loop (suc f) items (c ∷ s) = elim (parse_value f (skip_ws (c ∷ s))) [
      | parsed v r ↦ elim (separator b']' (skip_ws r)) [
        | nothing ↦ failed "Unterminated JSON array"
        | comma t ↦ array_loop f (push_back items v) t
        | closing t ↦ parsed (JsonValue.array (push_back items v)) t
        | other ↦ failed "Expected ',' or ']' in JSON array"
      ]
      | failed message ↦ failed message
      | overread ↦ overread
      | out_of_fuel ↦ out_of_fuel
    ]

    pub parse_object : ℕ → List ℕ → Parsed (JsonValue R)
    parse_object zero s = out_of_fuel
    parse_object (suc f) s = elim (accept b'}' s) [
      | some r ↦ parsed (JsonValue.object JsonObject.no_fields) r
      | none ↦ object_loop f JsonObject.no_fields s
    ]

    -- `while (cur_ < end_)` of `parse_object`
    pub object_loop : ℕ → JsonObject R → List ℕ → Parsed (JsonValue R)
    object_loop zero entries s = out_of_fuel
    object_loop (suc f) entries [] = failed "Unterminated JSON object"
    object_loop (suc f) entries (c ∷ s) = elim (parse_string_raw (skip_ws (c ∷ s))) [
      | parsed key r ↦ elim (accept b':' (skip_ws r)) [
        | none ↦ failed "Expected ':' after object key"
        | some t ↦ field_value f entries key (skip_ws t)
      ]
      | failed message ↦ failed message
      | overread ↦ overread
      | out_of_fuel ↦ out_of_fuel
    ]

    -- The rest of a turn, behind the colon.
    pub field_value : ℕ → JsonObject R → List ℕ → List ℕ → Parsed (JsonValue R)
    field_value zero entries key s = out_of_fuel
    field_value (suc f) entries key s = elim (parse_value f s) [
      | parsed v r ↦ elim (separator b'}' (skip_ws r)) [
        | nothing ↦ failed "Unterminated JSON object"
        | comma t ↦ object_loop f (emplace entries key v) t
        | closing t ↦ parsed (JsonValue.object (emplace entries key v)) t
        | other ↦ failed "Expected ',' or '}' in JSON object"
      ]
      | failed message ↦ failed message
      | overread ↦ overread
      | out_of_fuel ↦ out_of_fuel
    ]

  -- The end of `parse`: nothing but white space may follow.
  unfoldable pub finish : Parsed (JsonValue R) → Parsed (JsonValue R)
  unfolding skip_ws
  finish (parsed v r) =
      if is_empty (skip_ws r) then parsed v [] else failed "Extra data after JSON value"
  finish (failed message) = failed message
  finish overread = overread
  finish out_of_fuel = out_of_fuel

  unfoldable pub parse_json : List ℕ → Parsed (JsonValue R)
  unfolding finish parse_value skip_ws
  parse_json input = finish (parse_value (4 * length input + 1) (skip_ws input))
