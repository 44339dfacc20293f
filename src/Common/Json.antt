-- ===== src/Common/Json.antt =====
-- src/common/json.cpp and include/regimeflow/common/json.h: the parser of JSON texts.
--
-- Values: the parser of a value. Strings: that of a string. The other files here are proofs.
--
-- A text is the list of its bytes, and the parser's state is what is left of it. `strtod` is that of the C
-- library: the number at the front of a text and how many bytes it takes, which may be more than the
-- text has, since it reads on to the next byte that belongs to no number. A byte that is read behind the
-- end by the parser itself is `overread`. `isspace` and `isdigit` are those of the C locale. An
-- `unordered_map` is the list of its entries in the order of insertion.
pub mod Strings
pub mod Values
pub mod Shorter
pub mod Ends
pub mod Written
pub mod Heads
pub mod RoundTrip
mod Tests
use regime_flow.Base.{
  ◌||◌, ◌&&◌, ◌==◌, leb, Option, if◌then◌else◌, Bool, String, ℕ, List, some, none, ◌∷◌, [],
}

mutual
  pub data JsonValue (R : Type 0) : Type 0 where
    null : JsonValue R
    bool : Bool → JsonValue R
    number : R → JsonValue R
    string : List ℕ → JsonValue R
    array : JsonArray R → JsonValue R
    object : JsonObject R → JsonValue R

  pub data JsonArray (R : Type 0) : Type 0 where
    no_items : JsonArray R
    item : JsonValue R → JsonArray R → JsonArray R

  pub data JsonObject (R : Type 0) : Type 0 where
    no_fields : JsonObject R
    field : List ℕ → JsonValue R → JsonObject R → JsonObject R

-- A value and what is left of the text, or an error with its message.
pub data Parsed (A : Type 0) : Type 0 where
  parsed : A → List ℕ → Parsed A
  failed : String → Parsed A
  overread : Parsed A
  out_of_fuel : Parsed A

abbrev pub is_space : ℕ → Bool
is_space c = (leb 9 c && leb c 13) || (c == 32)

abbrev pub is_digit : ℕ → Bool
is_digit c = leb 48 c && leb c 57

unfoldable pub skip_ws : List ℕ → List ℕ
skip_ws [] = []
skip_ws (c ∷ s) = if is_space c then skip_ws s else c ∷ s

-- What follows `word`.
unfoldable pub strip : List ℕ → List ℕ → Option (List ℕ)
strip [] s = some s
strip (w ∷ word) [] = none
strip (w ∷ word) (c ∷ s) = if w == c then strip word s else none
