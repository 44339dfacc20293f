-- ===== src/Common/Json/RoundTrip.antt =====
-- What the parser of src/common/json.cpp makes of a written value: the value.
use regime_flow.Base.{
  ◌∙◌, sym, ap, arith, drop, ◌++◌, length, length-append, ◌≡◌, ◌+◌, ◌*◌, ◌<◌, Bool, List, ℕ, suc,
  zero, refl, false, true, ◌∷◌, [],
}
use regime_flow.Common.Json.{JsonValue, JsonArray, JsonObject, parsed, skip_ws, strip}
use regime_flow.Common.Json.Values.{
  accept, push_back, emplace, parse_null, parse_bool, parse_number, as_string, parse_value,
  parse_array, array_loop, parse_object, object_loop, field_value, finish, parse_json, separator,
}
use regime_flow.Common.Json.Written.{
  put, put_items, put_fields, put_string, parse_string_raw-put_string,
}
use regime_flow.Common.Json.Heads.{
  Starts, put-Starts, skip_ws-Starts, accept-Starts, Stops, IsNumberText, length-put,
  length-put_chars, join_items, join_fields, join_items-push_back, join_items_none,
  join_fields_none, join_fields-emplace, emplace-Apart, HasKeys, HasItemKeys, HasFieldKeys, Absent,
  Apart,
}

drop-append : (t rest : List ℕ) → drop (length t) (t ++ rest) ≡ rest
unfolding drop
drop-append [] rest = refl
drop-append (c ∷ t) rest = drop-append t rest

module _ {R : Type 0} (text : R → List ℕ) (strtod : List ℕ → R × ℕ) where
  number-back :
      (r : R) (t rest : List ℕ) (f : ℕ)
      → IsNumberText t
      → strtod (t ++ rest) ≡ (r, length t)
      → parse_value strtod (suc f) (t ++ rest) ≡ parsed (JsonValue.number r) rest
  unfolding parse_value parse_number
  number-back r [] rest f h e = absurd h
  number-back r (c ∷ t) rest f h e =
      rw (h, parse_value)
        (rw (e, parse_number)
          (ground (arith, drop-append (c ∷ t) rest, length-append (c ∷ t) rest)))

  array-items :
      (f : ℕ) (s : List ℕ)
      → Starts s
      → parse_array strtod (suc f) s ≡ array_loop strtod f JsonArray.no_items s
  unfolding parse_array
  array-items f s h = rw (accept-Starts s h, parse_array) refl

  array-open :
      (f : ℕ) (s : List ℕ)
      → Starts s
      → parse_value strtod (suc (suc f)) (b'[' ∷ s) ≡ array_loop strtod f JsonArray.no_items s
  unfolding parse_value
  array-open f s h = ap (parse_array strtod (suc f)) (skip_ws-Starts s h) ∙ array-items f s h

  item-last :
      (f : ℕ) (items : JsonArray R) (v : JsonValue R) (s rest : List ℕ)
      → Starts s
      → parse_value strtod f s ≡ parsed v (b']' ∷ rest)
      → array_loop strtod (suc f) items s ≡ parsed (JsonValue.array (push_back items v)) rest
  unfolding array_loop skip_ws separator
  item-last f items v [] rest h e = cc (h.parts)
  item-last f items v (c ∷ s) rest h e = rw (skip_ws-Starts (c ∷ s) h, array_loop) (rw e refl)

  item-next :
      (f : ℕ) (items : JsonArray R) (v : JsonValue R) (s t : List ℕ)
      → Starts s
      → parse_value strtod f s ≡ parsed v (b',' ∷ t)
      → array_loop strtod (suc f) items s ≡ array_loop strtod f (push_back items v) t
  unfolding array_loop skip_ws separator
  item-next f items v [] t h e = cc (h.parts)
  item-next f items v (c ∷ s) t h e = rw (skip_ws-Starts (c ∷ s) h, array_loop) (rw e refl)

  object-open :
      (f : ℕ) (k t : List ℕ)
      → parse_value strtod (suc (suc f)) (b'{' ∷ put_string k t)
        ≡ object_loop strtod f JsonObject.no_fields (put_string k t)
  unfolding parse_value parse_object skip_ws accept
  object-open f k t = refl

  field-head :
      (f : ℕ) (entries : JsonObject R) (k s : List ℕ)
      → Starts s
      → object_loop strtod (suc f) entries (put_string k (b':' ∷ s))
        ≡ field_value strtod f entries k s
  unfolding object_loop accept skip_ws
  field-head f entries k s h =
      rw (parse_string_raw-put_string k (b':' ∷ s), object_loop)
        (rw (skip_ws-Starts s h, object_loop) refl)

  field-last :
      (f : ℕ) (entries : JsonObject R) (k : List ℕ) (v : JsonValue R) (s rest : List ℕ)
      → parse_value strtod f s ≡ parsed v (b'}' ∷ rest)
      → field_value strtod (suc f) entries k s
        ≡ parsed (JsonValue.object (emplace entries k v)) rest
  unfolding field_value skip_ws separator
  field-last f entries k v s rest e = rw e refl

  field-next :
      (f : ℕ) (entries : JsonObject R) (k : List ℕ) (v : JsonValue R) (s t : List ℕ)
      → parse_value strtod f s ≡ parsed v (b',' ∷ t)
      → field_value strtod (suc f) entries k s ≡ object_loop strtod f (emplace entries k v) t
  unfolding field_value skip_ws separator
  field-next f entries k v s t e = rw e refl

  module _ (starts : (r : R) → IsNumberText (text r))
      (reads : (r : R) (rest : List ℕ)
        → Stops rest
        → strtod (text r ++ rest) ≡ (r, length (text r))) where
    -- What the loops make of the items and fields that are left, behind those that they have.
    abbrev ItemsBack : JsonArray R → Type 0
    ItemsBack JsonArray.no_items = Unit
    ItemsBack (JsonArray.item v a) =
        (f : ℕ) (items : JsonArray R) (rest : List ℕ)
        → 4 * length (put text v (put_items text a rest)) + 2 < f
        → array_loop strtod f items (put text v (put_items text a rest))
          ≡ parsed (JsonValue.array (join_items items (JsonArray.item v a))) rest

    abbrev FieldsBack : JsonObject R → Type 0
    FieldsBack JsonObject.no_fields = Unit
    FieldsBack (JsonObject.field k v o) =
        (f : ℕ) (entries : JsonObject R) (rest : List ℕ)
        → Apart entries (JsonObject.field k v o)
        → 4 * length (put_string k (b':' ∷ put text v (put_fields text o rest))) + 2 < f
        → object_loop strtod f entries (put_string k (b':' ∷ put text v (put_fields text o rest)))
          ≡ parsed (JsonValue.object (join_fields entries (JsonObject.field k v o))) rest

    abbrev ValueBack : JsonValue R → Type 0
    ValueBack v =
        (f : ℕ) (rest : List ℕ)
        → Stops rest
        → 4 * length (put text v rest) < f
        → parse_value strtod f (put text v rest) ≡ parsed v rest

    one_item : (v : JsonValue R) → ValueBack v → ItemsBack (JsonArray.item v JsonArray.no_items)
    one_item v back zero items rest h = absurd (omega arith)
    one_item v back (suc f) items rest h =
        item-last f items v (put text v (b']' ∷ rest)) rest (put-Starts text starts v (b']' ∷ rest))
          (back f (b']' ∷ rest) refl (omega arith))
        ∙ ap (λ (a : JsonArray R). parsed (JsonValue.array a) rest)
            (sym (join_items_none (push_back items v))
              ∙ join_items-push_back items v JsonArray.no_items)

    more_items :
        (v w : JsonValue R) (a : JsonArray R)
        → ValueBack v
        → ItemsBack (JsonArray.item w a)
        → ItemsBack (JsonArray.item v (JsonArray.item w a))
    more_items v w a back next zero items rest h = absurd (omega arith)
    more_items v w a back next (suc f) items rest h =
        let t = put text w (put_items text a rest) in
        item-next f items v (put text v (b',' ∷ t)) t (put-Starts text starts v (b',' ∷ t))
          (back f (b',' ∷ t) refl (omega arith))
        ∙ next f (push_back items v) rest (omega (arith, length-put text starts v (b',' ∷ t)))
        ∙ ap (λ (b : JsonArray R). parsed (JsonValue.array b) rest)
            (join_items-push_back items v (JsonArray.item w a))

    one_field :
        (k : List ℕ) (v : JsonValue R)
        → ValueBack v
        → FieldsBack (JsonObject.field k v JsonObject.no_fields)
    one_field k v back zero entries rest d h = absurd (omega arith)
    one_field k v back (suc zero) entries rest d h = absurd (omega arith)
    one_field k v back (suc (suc f)) entries rest d h =
        let s = put text v (b'}' ∷ rest) in
        let short = length-put_chars k (b':' ∷ s) in
        field-head (suc f) entries k s (put-Starts text starts v (b'}' ∷ rest))
        ∙ field-last f entries k v s rest (back f (b'}' ∷ rest) refl (omega (arith, short, h)))
        ∙ ap (λ (o : JsonObject R). parsed (JsonValue.object o) rest)
            (sym (join_fields_none (emplace entries k v))
              ∙ join_fields-emplace entries k v JsonObject.no_fields d)

    more_fields :
        (k l : List ℕ) (v w : JsonValue R) (o : JsonObject R)
        → Absent k (JsonObject.field l w o)
        → ValueBack v
        → FieldsBack (JsonObject.field l w o)
        → FieldsBack (JsonObject.field k v (JsonObject.field l w o))
    more_fields k l v w o new back next zero entries rest d h = absurd (omega arith)
    more_fields k l v w o new back next (suc zero) entries rest d h = absurd (omega arith)
    more_fields k l v w o new back next (suc (suc f)) entries rest d h =
        let t = put_string l (b':' ∷ put text w (put_fields text o rest)) in
        let s = put text v (b',' ∷ t) in
        let short = length-put_chars k (b':' ∷ s) in
        let shorter = length-put text starts v (b',' ∷ t) in
        field-head (suc f) entries k s (put-Starts text starts v (b',' ∷ t))
        ∙ field-next f entries k v s t (back f (b',' ∷ t) refl (omega (arith, short, h)))
        ∙ next f (emplace entries k v) rest
            (emplace-Apart entries k v (JsonObject.field l w o) d new)
            (omega (arith, short, shorter, h))
        ∙ ap (λ (b : JsonObject R). parsed (JsonValue.object b) rest)
            (join_fields-emplace entries k v (JsonObject.field l w o) d)

    array_back :
        (v : JsonValue R) (a : JsonArray R)
        → ItemsBack (JsonArray.item v a)
        → ValueBack (JsonValue.array (JsonArray.item v a))
    array_back v a back zero rest e h = absurd (omega arith)
    array_back v a back (suc zero) rest e h = absurd (omega arith)
    array_back v a back (suc (suc f)) rest e h =
        let s = put text v (put_items text a rest) in
        array-open f s (put-Starts text starts v (put_items text a rest))
        ∙ back f JsonArray.no_items rest (omega arith)

    object_back :
        (k : List ℕ) (v : JsonValue R) (o : JsonObject R)
        → FieldsBack (JsonObject.field k v o)
        → ValueBack (JsonValue.object (JsonObject.field k v o))
    object_back k v o back zero rest e h = absurd (omega arith)
    object_back k v o back (suc zero) rest e h = absurd (omega arith)
    object_back k v o back (suc (suc f)) rest e h =
        object-open f k (b':' ∷ put text v (put_fields text o rest))
        ∙ back f JsonObject.no_fields rest tt (omega arith)

    -- The values that are no arrays or objects with something in them.
    number_back : (r : R) → ValueBack (JsonValue.number r)
    number_back r zero rest e h = absurd (omega arith)
    number_back r (suc f) rest e h = number-back r (text r) rest f (starts r) (reads r rest e)

    string_back : (k : List ℕ) → ValueBack (JsonValue.string k)
    unfolding parse_value as_string
    string_back k zero rest e h = absurd (omega arith)
    string_back k (suc f) rest e h = ap as_string (parse_string_raw-put_string k rest)

    bool_back : (b : Bool) → ValueBack (JsonValue.bool b)
    unfolding parse_value parse_bool strip
    bool_back true zero rest e h = absurd (omega arith)
    bool_back false zero rest e h = absurd (omega arith)
    bool_back true (suc f) rest e h = refl
    bool_back false (suc f) rest e h = refl

    null_back : ValueBack JsonValue.null
    unfolding parse_value parse_null strip
    null_back zero rest e h = absurd (omega arith)
    null_back (suc f) rest e h = refl

    no_items_back : ValueBack (JsonValue.array JsonArray.no_items)
    unfolding parse_value parse_array skip_ws accept
    no_items_back zero rest e h = absurd (omega arith)
    no_items_back (suc zero) rest e h = absurd (omega arith)
    no_items_back (suc (suc f)) rest e h = refl

    no_fields_back : ValueBack (JsonValue.object JsonObject.no_fields)
    unfolding parse_value parse_object skip_ws accept
    no_fields_back zero rest e h = absurd (omega arith)
    no_fields_back (suc zero) rest e h = absurd (omega arith)
    no_fields_back (suc (suc f)) rest e h = refl

    mutual
      value_back : (v : JsonValue R) → HasKeys v → ValueBack v
      value_back JsonValue.null k = null_back
      value_back (JsonValue.bool b) k = bool_back b
      value_back (JsonValue.number r) k = number_back r
      value_back (JsonValue.string s) k = string_back s
      value_back (JsonValue.array JsonArray.no_items) k = no_items_back
      value_back (JsonValue.array (JsonArray.item v a)) k =
          array_back v a (items_back (JsonArray.item v a) k)
      value_back (JsonValue.object JsonObject.no_fields) k = no_fields_back
      value_back (JsonValue.object (JsonObject.field l v o)) k =
          object_back l v o (fields_back (JsonObject.field l v o) k)

      items_back : (a : JsonArray R) → HasItemKeys a → ItemsBack a
      items_back JsonArray.no_items k = tt
      items_back (JsonArray.item v JsonArray.no_items) k = one_item v (value_back v k.0)
      items_back (JsonArray.item v (JsonArray.item w a)) k =
          more_items v w a (value_back v k.0) (items_back (JsonArray.item w a) k.1)

      fields_back : (o : JsonObject R) → HasFieldKeys o → FieldsBack o
      fields_back JsonObject.no_fields k = tt
      fields_back (JsonObject.field l v JsonObject.no_fields) k = one_field l v (value_back v k.1)
      fields_back (JsonObject.field l v (JsonObject.field j w o)) k =
          more_fields l j v w o k.0 (value_back v k.1) (fields_back (JsonObject.field j w o) k.2)

    -- A value with no key twice in an object, written as a text, is parsed as that value, with nothing left; the
    -- texts of numbers start as numbers do, and `strtod` reads each of them back where a separator or the end of
    -- the text follows it.
    pub parse_json-put :
        (v : JsonValue R) → HasKeys v → parse_json strtod (put text v []) ≡ parsed v []
    unfolding parse_json finish skip_ws
    parse_json-put v k =
        let s = put text v [] in
        ap (λ l. finish strtod (parse_value strtod (4 * length s + 1) l))
          (skip_ws-Starts s (put-Starts text starts v []))
        ∙ ap (finish strtod) (value_back v k (4 * length s + 1) [] tt (omega arith))
