-- ===== src/Common/Json/Shorter.antt =====
-- What the parts of the parser of src/common/json.cpp leave of the text.
use regime_flow.Base.{
  String, ◌++◌, ◌+◌, ◌==◌, ◌*◌, Bool-cases, Option-cases, arith, ◌<◌, ◌≡◌, Option, ◌≤◌, length,
  List, ℕ, suc, zero, inr, inl, some, none, ◌∷◌, [],
}
use regime_flow.Common.Json.{Parsed, parsed, failed, overread, out_of_fuel, skip_ws, strip}
use regime_flow.Common.Json.Strings.{
  Piece, close, char, bad, hex_code, hex_digit, unicode, escape, next_char, string_loop,
  parse_string_raw,
}
use regime_flow.Common.Json.Values.{separator, Separator, accept}

-- There is a result, and it leaves less than `n` bytes.
abbrev pub Shrinks : {A : Type 0} → ℕ → Parsed A → Type 0
Shrinks n (parsed _ r) = length r < n
Shrinks n (failed _) = Unit
Shrinks n overread = Unit
Shrinks n out_of_fuel = ⊥

pub Shrinks-mono : {A : Type 0} → (m n : ℕ) (p : Parsed A) → m ≤ n → Shrinks m p → Shrinks n p
Shrinks-mono m n (parsed v r) h s = omega (arith, s)
Shrinks-mono m n (failed e) h s = tt
Shrinks-mono m n overread h s = tt
Shrinks-mono m n out_of_fuel h s = s

pub length-skip_ws : (s : List ℕ) → length (skip_ws s) ≤ length s
unfolding skip_ws
length-skip_ws [] = omega arith
length-skip_ws (c ∷ s) = ground (arith, length-skip_ws s)

abbrev pub LeavesLess : ℕ → Option (List ℕ) → Type 0
LeavesLess n none = Unit
LeavesLess n (some r) = length r < n

pub LeavesLess-mono : (m n : ℕ) (o : Option (List ℕ)) → m ≤ n → LeavesLess m o → LeavesLess n o
LeavesLess-mono m n none h l = tt
LeavesLess-mono m n (some r) h l = omega (arith, l)

pub strip-LeavesLess : (w : ℕ) (word s : List ℕ) → LeavesLess (length s) (strip (w ∷ word) s)
unfolding strip
strip-LeavesLess w word [] = tt
strip-LeavesLess w [] (c ∷ s) = ground arith
strip-LeavesLess w (v ∷ word) (c ∷ s) = elim (Bool-cases (w == c)) [
  | inl e ↦ rw e (
      LeavesLess-mono (length s) (suc (length s)) (strip (v ∷ word) s) (omega arith)
        (strip-LeavesLess v word s))
  | inr e ↦ rw e tt
]

pub accept-LeavesLess : (k : ℕ) (s : List ℕ) → LeavesLess (length s) (accept k s)
unfolding accept
accept-LeavesLess k [] = tt
accept-LeavesLess k (c ∷ s) = ground arith

abbrev PieceShrinks : ℕ → Piece → Type 0
PieceShrinks n (close r) = length r < n
PieceShrinks n (char _ r) = length r < n
PieceShrinks n (bad _) = Unit

PieceShrinks-mono : (m n : ℕ) (x : Piece) → PieceShrinks m x → m ≤ n → PieceShrinks n x
PieceShrinks-mono m n (close r) h l = omega (arith, h)
PieceShrinks-mono m n (char c r) h l = omega (arith, h)
PieceShrinks-mono m n (bad e) h l = tt

hex_code-le :
    (n code : ℕ) (s : List ℕ) (x : ℕ) (r : List ℕ)
    → hex_code n code s ≡ some (x, r)
    → length r ≤ length s
unfolding hex_code
hex_code-le zero code s x r h = ground arith
hex_code-le (suc n) code [] x r h = absurd (cc)
hex_code-le (suc n) code (c ∷ s) x r h = elim (Option-cases (hex_digit c)) [
  | inl e ↦ absurd (ground arith)
  | inr (d, e) ↦ ground (arith, hex_code-le n (code * 16 + d) s x r)
]

unicode-PieceShrinks : (s : List ℕ) → PieceShrinks (suc (length s)) (unicode (hex_code 4 0 s))
unfolding unicode
unicode-PieceShrinks s = elim (Option-cases (hex_code 4 0 s)) [
  | inl e ↦ rw (e, unicode) tt
  | inr (x, e) ↦ rw (e, unicode) (ground (arith, hex_code-le 4 0 s x.0 x.1 e))
]

escape-PieceShrinks : (s : List ℕ) → PieceShrinks (length s) (escape s)
unfolding escape
escape-PieceShrinks [] = tt
escape-PieceShrinks (c ∷ s) = ground (arith, unicode-PieceShrinks s)

next_char-PieceShrinks : (s : List ℕ) → PieceShrinks (length s) (next_char s)
unfolding next_char
next_char-PieceShrinks [] = tt
next_char-PieceShrinks (c ∷ s) =
    ground (arith, PieceShrinks-mono (length s) (suc (length s)) (escape s) (escape-PieceShrinks s))

string_step :
    (f n : ℕ) (out : List ℕ) (x : Piece)
    → PieceShrinks n x
    → ((o r : List ℕ) → length r < n → Shrinks (length r) (string_loop f o r))
    → Shrinks n (elim x [
      | close r ↦ parsed out r
      | char c r ↦ string_loop f (out ++ c ∷ []) r
      | bad message ↦ failed message
    ])
string_step f n out (close r) h ih = h
string_step f n out (char c r) h ih =
    Shrinks-mono (length r) n (string_loop f (out ++ c ∷ []) r) (omega (arith, h))
      (ih (out ++ c ∷ []) r h)
string_step f n out (bad message) h ih = tt

string_loop-Shrinks :
    (f : ℕ) (out s : List ℕ) → length s < f → Shrinks (length s) (string_loop f out s)
unfolding string_loop
string_loop-Shrinks zero out s h = absurd (omega arith)
string_loop-Shrinks (suc f) out s h =
    string_step f (length s) out (next_char s) (next_char-PieceShrinks s)
      (λ o r l. string_loop-Shrinks f o r (omega (arith, l, h)))

pub parse_string_raw-Shrinks : (s : List ℕ) → Shrinks (length s) (parse_string_raw s)
unfolding parse_string_raw
parse_string_raw-Shrinks [] = tt
parse_string_raw-Shrinks (c ∷ s) = elim (Bool-cases (c == 34)) [
  | inl e ↦ rw e (
      Shrinks-mono (length s) (suc (length s)) (string_loop (suc (length s)) [] s) (omega arith)
        (string_loop-Shrinks (suc (length s)) [] s (omega arith)))
  | inr e ↦ rw e tt
]

pub after_value :
    {A B : Type 0}
    → (n : ℕ) (p : Parsed A) (k : A → List ℕ → Parsed B) → Shrinks n p
    → ((v : A) (r : List ℕ) → length r < n → Shrinks n (k v r))
    → Shrinks n (elim p [
      | parsed v r ↦ k v r
      | failed message ↦ failed message
      | overread ↦ overread
      | out_of_fuel ↦ out_of_fuel
    ])
after_value n (parsed v r) k h g = g v r h
after_value n (failed message) k h g = tt
after_value n overread k h g = tt
after_value n out_of_fuel k h g = h

abbrev pub SeparatorShrinks : ℕ → Separator → Type 0
SeparatorShrinks n Separator.nothing = Unit
SeparatorShrinks n (Separator.comma t) = length t < n
SeparatorShrinks n (Separator.closing t) = length t < n
SeparatorShrinks n Separator.other = Unit

pub separator-SeparatorShrinks :
    (k n : ℕ) (s : List ℕ) → length s ≤ n → SeparatorShrinks n (separator k s)
unfolding separator
separator-SeparatorShrinks k n [] h = tt
separator-SeparatorShrinks k n (c ∷ s) h = ground arith

pub after_separator :
    {B : Type 0}
    → (n : ℕ) (x : Separator) (again done : List ℕ → Parsed B) (e g : String) → SeparatorShrinks n x
    → ((t : List ℕ) → length t < n → Shrinks n (again t))
    → ((t : List ℕ) → length t < n → Shrinks n (done t))
    → Shrinks n (elim x [
      | Separator.nothing ↦ failed e
      | Separator.comma t ↦ again t
      | Separator.closing t ↦ done t
      | Separator.other ↦ failed g
    ])
after_separator n Separator.nothing again done e g h a d = tt
after_separator n (Separator.comma t) again done e g h a d = a t h
after_separator n (Separator.closing t) again done e g h a d = d t h
after_separator n Separator.other again done e g h a d = tt

pub after_accept :
    {B : Type 0}
    → (n : ℕ) (x : Option (List ℕ)) (found : List ℕ → Parsed B) (absent : Parsed B) → LeavesLess n x
    → ((t : List ℕ) → length t < n → Shrinks n (found t))
    → Shrinks n absent
    → Shrinks n (elim x [ some t ↦ found t | none ↦ absent ])
after_accept n none found absent h f a = a
after_accept n (some t) found absent h f a = f t h
