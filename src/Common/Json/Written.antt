-- ===== src/Common/Json/Written.antt =====
-- How a value is written as a text, and what the parser of src/common/json.cpp sees at its start. The
-- repository has no such function: it serves to say which texts are parsed, and as what.
use mathlib.Core.List.{append_assoc, append-nil}
use regime_flow.Base.{
  ◌∙◌, sym, ap, Bool-cases, inr, inl, ◌%◌, ◌+◌, ◌/◌, arith, ◌==◌, ltb, ◌++◌, length, ◌≡◌, ◌<◌,
  if◌then◌else◌, List, ℕ, suc, zero, false, true, some, ◌∷◌, [],
}
use regime_flow.Common.Json.{JsonValue, JsonArray, JsonObject, parsed}
use regime_flow.Common.Json.Strings.{
  char, hex_code, hex_digit, escape, next_char, string_loop, parse_string_raw,
}

abbrev pub hex_of : ℕ → ℕ
hex_of d = if ltb d 10 then 48 + d else 87 + d

-- A byte of a string, before `rest`.
abbrev pub put_char : ℕ → List ℕ → List ℕ
put_char c rest =
    if c == 34
    then 92 ∷ 34 ∷ rest
    else if c == 92
    then 92 ∷ 92 ∷ rest
    else if ltb c 0x20
    then 92 ∷ b'u' ∷ b'0' ∷ b'0' ∷ hex_of (c / 16) ∷ hex_of (c % 16) ∷ rest
    else c ∷ rest

abbrev pub put_chars : List ℕ → List ℕ → List ℕ
put_chars [] rest = 34 ∷ rest
put_chars (c ∷ k) rest = put_char c (put_chars k rest)

abbrev pub put_string : List ℕ → List ℕ → List ℕ
put_string k rest = 34 ∷ put_chars k rest

hex_digit-hex_of : (d : ℕ) → d < 16 → hex_digit (hex_of d) ≡ some d
unfolding hex_digit
hex_digit-hex_of d h = ground arith

control :
    (c : ℕ) (t : List ℕ)
    → c < 0x20
    → hex_code 4 0 (b'0' ∷ b'0' ∷ hex_of (c / 16) ∷ hex_of (c % 16) ∷ t) ≡ some (c, t)
unfolding hex_code hex_digit
control c t h =
    let low : c % 16 < 16 = omega arith in
    let high : c / 16 < 16 = omega arith in
    ground (arith, hex_digit-hex_of (c / 16) high, hex_digit-hex_of (c % 16) low)

next_char-put_char : (c : ℕ) (t : List ℕ) → next_char (put_char c t) ≡ char c t
unfolding next_char escape
next_char-put_char c t = elim (Bool-cases (ltb c 0x20)) [
  | inl e ↦ ground (arith, control c t (ground arith))
  | inr e ↦ ground arith
]

length-put_char : (c : ℕ) (t : List ℕ) → length t < length (put_char c t)
length-put_char c t = ground arith

string_loop-put_chars :
    (k : List ℕ) (f : ℕ) (out rest : List ℕ)
    → length (put_chars k rest) < f
    → string_loop f out (put_chars k rest) ≡ parsed (out ++ k) rest
unfolding string_loop
string_loop-put_chars [] zero out rest h = absurd (omega arith)
string_loop-put_chars [] (suc f) out rest h =
    ap (λ (l : List ℕ). parsed l rest) (sym (append-nil out))
string_loop-put_chars (c ∷ k) zero out rest h = absurd (omega arith)
string_loop-put_chars (c ∷ k) (suc f) out rest h =
    rw (next_char-put_char c (put_chars k rest), string_loop)
      (string_loop-put_chars k f (out ++ c ∷ []) rest
          (omega (arith, h, length-put_char c (put_chars k rest)))
        ∙ ap (λ (l : List ℕ). parsed l rest) (append_assoc out (c ∷ []) k))

pub parse_string_raw-put_string :
    (k rest : List ℕ) → parse_string_raw (put_string k rest) ≡ parsed k rest
unfolding parse_string_raw
parse_string_raw-put_string k rest =
    string_loop-put_chars k (suc (length (put_chars k rest))) [] rest (omega arith)

module _ {R : Type 0} (text : R → List ℕ) where
  abbrev mutual
    pub put : JsonValue R → List ℕ → List ℕ
    put JsonValue.null rest = b'n' ∷ b'u' ∷ b'l' ∷ b'l' ∷ rest
    put (JsonValue.bool true) rest = b't' ∷ b'r' ∷ b'u' ∷ b'e' ∷ rest
    put (JsonValue.bool false) rest = b'f' ∷ b'a' ∷ b'l' ∷ b's' ∷ b'e' ∷ rest
    put (JsonValue.number r) rest = text r ++ rest
    put (JsonValue.string k) rest = put_string k rest
    put (JsonValue.array JsonArray.no_items) rest = b'[' ∷ b']' ∷ rest
    put (JsonValue.array (JsonArray.item v a)) rest = b'[' ∷ put v (put_items a rest)
    put (JsonValue.object JsonObject.no_fields) rest = b'{' ∷ b'}' ∷ rest
    put (JsonValue.object (JsonObject.field k v o)) rest =
        b'{' ∷ put_string k (b':' ∷ put v (put_fields o rest))

    pub put_items : JsonArray R → List ℕ → List ℕ
    put_items JsonArray.no_items rest = b']' ∷ rest
    put_items (JsonArray.item v a) rest = b',' ∷ put v (put_items a rest)

    pub put_fields : JsonObject R → List ℕ → List ℕ
    put_fields JsonObject.no_fields rest = b'}' ∷ rest
    put_fields (JsonObject.field k v o) rest =
        b',' ∷ put_string k (b':' ∷ put v (put_fields o rest))
