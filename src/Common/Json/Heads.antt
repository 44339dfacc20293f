-- ===== src/Common/Json/Heads.antt =====
-- The first byte of a written value, and the keys of objects (src/common/json.cpp).
use regime_flow.Base.{
  length-append, ◌<◌, arith, ◌||◌, ap, length, ◌++◌, ◌==◌, ◌≡◌, ℕ, List, refl, false, true, none,
  ◌∷◌, [],
}
use regime_flow.Common.Json.{JsonValue, JsonArray, JsonObject, is_space, skip_ws}
use regime_flow.Common.Json.Values.{Kind, kind_of, accept, same_key, push_back, emplace}
use regime_flow.Common.Json.Written.{put, put_items, put_fields, put_chars}

pub record Starts (s : List ℕ) : Type 0 where
  pub byte : ℕ
  pub after : List ℕ
  pub parts : s ≡ byte ∷ after
  pub space : is_space byte ≡ false
  pub bracket : (byte == b']') ≡ false
  pub brace : (byte == b'}') ≡ false

-- A text at which a number ends: nothing, or a separator.
abbrev pub Stops : List ℕ → Type 0
Stops [] = Unit
Stops (c ∷ s) = ((c == b',') || (c == b']') || (c == b'}')) ≡ true

abbrev pub IsNumberText : List ℕ → Type 0
IsNumberText [] = ⊥
IsNumberText (c ∷ l) = kind_of c ≡ Kind.number

number-Starts : (t rest : List ℕ) → IsNumberText t → Starts (t ++ rest)
unfolding kind_of
number-Starts [] rest h = absurd h
number-Starts (c ∷ l) rest h = record {
  byte = c;
  after = l ++ rest;
  parts = refl;
  space = ground arith;
  bracket = ground arith;
  brace = ground arith;
}

here :
    (c : ℕ) (l : List ℕ)
    → is_space c ≡ false
    → (c == b']') ≡ false
    → (c == b'}') ≡ false
    → Starts (c ∷ l)
here c l s a o = record { byte = c; after = l; parts = refl; space = s; bracket = a; brace = o }

pub skip_ws-Starts : (s : List ℕ) → Starts s → skip_ws s ≡ s
unfolding skip_ws
skip_ws-Starts s h = rw h.parts (rw h.space refl)

pub accept-Starts : (s : List ℕ) → Starts s → accept b']' s ≡ none
unfolding accept
accept-Starts s h = rw h.parts (rw h.bracket refl)

number_length : (t rest : List ℕ) → IsNumberText t → length rest < length (t ++ rest)
number_length [] rest h = absurd h
number_length (c ∷ t) rest h = omega (arith, length-append t rest)

pub length-put_chars : (k rest : List ℕ) → length rest < length (put_chars k rest)
length-put_chars [] rest = omega arith
length-put_chars (c ∷ k) rest = ground (arith, length-put_chars k rest)

module _ {R : Type 0} (text : R → List ℕ) (starts : (r : R) → IsNumberText (text r)) where
  pub put-Starts : (v : JsonValue R) (rest : List ℕ) → Starts (put text v rest)
  put-Starts JsonValue.null rest = here _ _ refl refl refl
  put-Starts (JsonValue.bool true) rest = here _ _ refl refl refl
  put-Starts (JsonValue.bool false) rest = here _ _ refl refl refl
  put-Starts (JsonValue.number r) rest = number-Starts (text r) rest (starts r)
  put-Starts (JsonValue.string k) rest = here _ _ refl refl refl
  put-Starts (JsonValue.array JsonArray.no_items) rest = here _ _ refl refl refl
  put-Starts (JsonValue.array (JsonArray.item v a)) rest = here _ _ refl refl refl
  put-Starts (JsonValue.object JsonObject.no_fields) rest = here _ _ refl refl refl
  put-Starts (JsonValue.object (JsonObject.field k v o)) rest = here _ _ refl refl refl

  mutual
    pub length-put : (v : JsonValue R) (rest : List ℕ) → length rest < length (put text v rest)
    length-put JsonValue.null rest = omega arith
    length-put (JsonValue.bool true) rest = omega arith
    length-put (JsonValue.bool false) rest = omega arith
    length-put (JsonValue.number r) rest = number_length (text r) rest (starts r)
    length-put (JsonValue.string k) rest = omega (arith, length-put_chars k rest)
    length-put (JsonValue.array JsonArray.no_items) rest = omega arith
    length-put (JsonValue.array (JsonArray.item v a)) rest =
        omega (arith, length-put v (put_items text a rest), length-put_items a rest)
    length-put (JsonValue.object JsonObject.no_fields) rest = omega arith
    length-put (JsonValue.object (JsonObject.field k v o)) rest = omega (
      arith,
      length-put_chars k (b':' ∷ put text v (put_fields text o rest)),
      length-put v (put_fields text o rest),
      length-put_fields o rest,
    )

    pub length-put_items :
        (a : JsonArray R) (rest : List ℕ) → length rest < length (put_items text a rest)
    length-put_items JsonArray.no_items rest = omega arith
    length-put_items (JsonArray.item v a) rest =
        omega (arith, length-put v (put_items text a rest), length-put_items a rest)

    pub length-put_fields :
        (o : JsonObject R) (rest : List ℕ) → length rest < length (put_fields text o rest)
    length-put_fields JsonObject.no_fields rest = omega arith
    length-put_fields (JsonObject.field k v o) rest = omega (
      arith,
      length-put_chars k (b':' ∷ put text v (put_fields text o rest)),
      length-put v (put_fields text o rest),
      length-put_fields o rest,
    )

module _ {R : Type 0} where
  -- `o` has no field under the key `l`.
  abbrev pub Absent : List ℕ → JsonObject R → Type 0
  Absent l JsonObject.no_fields = Unit
  Absent l (JsonObject.field k v o) = (same_key l k ≡ false) × Absent l o

  -- No key of the first is one of the second.
  abbrev pub Apart : JsonObject R → JsonObject R → Type 0
  Apart JsonObject.no_fields o = Unit
  Apart (JsonObject.field l w e) o = Absent l o × Apart e o

  -- In every object the keys are different.
  abbrev mutual
    pub HasKeys : JsonValue R → Type 0
    HasKeys (JsonValue.array a) = HasItemKeys a
    HasKeys (JsonValue.object o) = HasFieldKeys o
    HasKeys JsonValue.null = Unit
    HasKeys (JsonValue.bool b) = Unit
    HasKeys (JsonValue.number r) = Unit
    HasKeys (JsonValue.string k) = Unit

    pub HasItemKeys : JsonArray R → Type 0
    HasItemKeys JsonArray.no_items = Unit
    HasItemKeys (JsonArray.item v a) = HasKeys v × HasItemKeys a

    pub HasFieldKeys : JsonObject R → Type 0
    HasFieldKeys JsonObject.no_fields = Unit
    HasFieldKeys (JsonObject.field k v o) = Absent k o × HasKeys v × HasFieldKeys o

  abbrev pub join_items : JsonArray R → JsonArray R → JsonArray R
  join_items JsonArray.no_items a = a
  join_items (JsonArray.item v e) a = JsonArray.item v (join_items e a)

  abbrev pub join_fields : JsonObject R → JsonObject R → JsonObject R
  join_fields JsonObject.no_fields o = o
  join_fields (JsonObject.field l w e) o = JsonObject.field l w (join_fields e o)

  pub join_items-push_back :
      (e : JsonArray R) (v : JsonValue R) (a : JsonArray R)
      → join_items (push_back e v) a ≡ join_items e (JsonArray.item v a)
  unfolding push_back
  join_items-push_back JsonArray.no_items v a = refl
  join_items-push_back (JsonArray.item w e) v a = ap (JsonArray.item w) (join_items-push_back e v a)

  pub join_items_none : (e : JsonArray R) → join_items e JsonArray.no_items ≡ e
  join_items_none JsonArray.no_items = refl
  join_items_none (JsonArray.item w e) = ap (JsonArray.item w) (join_items_none e)

  pub join_fields_none : (e : JsonObject R) → join_fields e JsonObject.no_fields ≡ e
  join_fields_none JsonObject.no_fields = refl
  join_fields_none (JsonObject.field l w e) = ap (JsonObject.field l w) (join_fields_none e)

  pub join_fields-emplace :
      (e : JsonObject R) (k : List ℕ) (v : JsonValue R) (o : JsonObject R)
      → Apart e (JsonObject.field k v o)
      → join_fields (emplace e k v) o ≡ join_fields e (JsonObject.field k v o)
  unfolding emplace
  join_fields-emplace JsonObject.no_fields k v o h = refl
  join_fields-emplace (JsonObject.field l w e) k v o h =
      rw h.0.0 (ap (JsonObject.field l w) (join_fields-emplace e k v o h.1))

  pub emplace-Apart :
      (e : JsonObject R) (k : List ℕ) (v : JsonValue R) (o : JsonObject R)
      → Apart e (JsonObject.field k v o)
      → Absent k o
      → Apart (emplace e k v) o
  unfolding emplace
  emplace-Apart JsonObject.no_fields k v o h a = (a, tt)
  emplace-Apart (JsonObject.field l w e) k v o h a = rw h.0.0 (h.0.1, emplace-Apart e k v o h.1 a)
