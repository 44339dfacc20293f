-- ===== src/Common/Json/Strings.antt =====
-- `parse_string_raw` of src/common/json.cpp.
use regime_flow.Base.{
  ◌-◌, length, ltb, ◌&&◌, ◌==◌, ◌+◌, leb, ◌++◌, ◌*◌, if◌then◌else◌, String, Option, ℕ, List, suc,
  zero, some, none, ◌∷◌, [],
}
use regime_flow.Common.Json.{Parsed, parsed, failed, overread, out_of_fuel}

-- What the loop meets next: the closing quote, a byte of the string, or an error.
pub data Piece : Type 0 where
  close : List ℕ → Piece
  char : ℕ → List ℕ → Piece
  bad : String → Piece

unfoldable pub hex_digit : ℕ → Option ℕ
hex_digit c =
    if leb 48 c && leb c 57
    then some (c - 48)
    else if leb 97 c && leb c 102
    then some (10 + c - 97)
    else if leb 65 c && leb c 70
    then some (10 + c - 65)
    else none

-- The `n` digits of a unicode escape; none if there are less, or others.
unfoldable pub hex_code : ℕ → ℕ → List ℕ → Option (ℕ × List ℕ)
unfolding hex_digit
hex_code zero code s = some (code, s)
hex_code (suc n) code [] = none
hex_code (suc n) code (c ∷ s) = elim (hex_digit c) [
  | none ↦ none
  | some d ↦ hex_code n (code * 16 + d) s
]

unfoldable pub unicode : Option (ℕ × List ℕ) → Piece
unicode none = bad "Invalid JSON unicode escape"
unicode (some (code, s)) = char (if leb code 0x7f then code else b'?') s

-- Behind a backslash.
unfoldable pub escape : List ℕ → Piece
unfolding hex_code unicode
escape [] = bad "Invalid JSON escape"
escape (e ∷ s) =
    if e == 34
    then char 34 s
    else if e == 92
    then char 92 s
    else if e == b'/'
    then char b'/' s
    else if e == b'b'
    then char 8 s
    else if e == b'f'
    then char 12 s
    else if e == b'n'
    then char 10 s
    else if e == b'r'
    then char 13 s
    else if e == b't'
    then char 9 s
    else if e == b'u'
    then unicode (hex_code 4 0 s)
    else bad "Invalid JSON escape"

unfoldable pub next_char : List ℕ → Piece
unfolding escape
next_char [] = bad "Unterminated JSON string"
next_char (c ∷ s) =
    if c == 34
    then close s
    else if c == 92
    then escape s
    else if ltb c 0x20
    then bad "Invalid control char in JSON string"
    else char c s

-- The loop, which has `out` of the string.
unfoldable pub string_loop : ℕ → List ℕ → List ℕ → Parsed (List ℕ)
unfolding next_char
string_loop zero out s = out_of_fuel
string_loop (suc f) out s = elim (next_char s) [
  | close r ↦ parsed out r
  | char c r ↦ string_loop f (out ++ c ∷ []) r
  | bad message ↦ failed message
]

unfoldable pub parse_string_raw : List ℕ → Parsed (List ℕ)
unfolding string_loop
parse_string_raw [] = overread
parse_string_raw (c ∷ s) =
    if c == 34 then string_loop (suc (length s)) [] s else failed "Expected string"
