-- ===== src/Common/Json/Ends.antt =====
-- The parser of src/common/json.cpp comes to an end, since what is left of the text gets shorter.
use regime_flow.Base.{length-drop, ◌+◌, ◌<◌, arith, ◌≢◌, ◌*◌, length, List, ℕ, suc, zero, ◌∷◌, []}
use regime_flow.Common.Json.{
  JsonValue, JsonArray, JsonObject, Parsed, parsed, failed, overread, out_of_fuel, skip_ws,
}
use regime_flow.Common.Json.Strings.{parse_string_raw}
use regime_flow.Common.Json.Values.{
  separator, accept, push_back, emplace, parse_null, parse_bool, parse_number, as_string,
  parse_value, parse_array, array_loop, parse_object, object_loop, field_value, finish, parse_json,
  kind_of, Kind,
}
use regime_flow.Common.Json.Shorter.{
  Shrinks, Shrinks-mono, length-skip_ws, LeavesLess-mono, strip-LeavesLess, accept-LeavesLess,
  separator-SeparatorShrinks, after_value, after_separator, after_accept, parse_string_raw-Shrinks,
}

module _ (R : Type 0) where
  as_string-Shrinks : (n : ℕ) (p : Parsed (List ℕ)) → Shrinks n p → Shrinks n (as_string {R = R} p)
  unfolding as_string
  as_string-Shrinks n (parsed raw r) h = h
  as_string-Shrinks n (failed e) h = tt
  as_string-Shrinks n overread h = tt
  as_string-Shrinks n out_of_fuel h = h

  parse_null-Shrinks : (s : List ℕ) → Shrinks (length s) (parse_null {R = R} s)
  unfolding parse_null
  parse_null-Shrinks s =
      after_accept (length s) _ _ _ (strip-LeavesLess b'n' (b'u' ∷ b'l' ∷ b'l' ∷ []) s) (λ t h. h)
        tt

  parse_bool-Shrinks : (s : List ℕ) → Shrinks (length s) (parse_bool {R = R} s)
  unfolding parse_bool
  parse_bool-Shrinks s =
      after_accept (length s) _ _ _ (strip-LeavesLess b't' (b'r' ∷ b'u' ∷ b'e' ∷ []) s) (λ t h. h)
        (after_accept (length s) _ _ _ (strip-LeavesLess b'f' (b'a' ∷ b'l' ∷ b's' ∷ b'e' ∷ []) s)
          (λ t h. h) tt)

module _ {R : Type 0} where
  parse_number-Shrinks :
      (strtod : List ℕ → R × ℕ) (s : List ℕ) → Shrinks (length s) (parse_number strtod s)
  unfolding parse_number
  parse_number-Shrinks strtod s = ground (arith, length-drop (strtod s).1 s)

module _ {R : Type 0} (strtod : List ℕ → R × ℕ) where
  mutual
    unfolding parse_value

    value-Shrinks :
        (f : ℕ) (s : List ℕ) → 4 * length s < f → Shrinks (length s) (parse_value strtod f s)
    value-Shrinks zero s h = absurd (omega arith)
    value-Shrinks (suc f) [] h = tt
    value-Shrinks (suc f) (c ∷ s) h =
        elim (kind_of c)
          as (λ k. Shrinks (suc (length s)) (elim k [
            | Kind.object ↦ parse_object strtod f (skip_ws s)
            | Kind.array ↦ parse_array strtod f (skip_ws s)
            | Kind.string ↦ as_string (parse_string_raw (c ∷ s))
            | Kind.bool ↦ parse_bool (c ∷ s)
            | Kind.null ↦ parse_null (c ∷ s)
            | Kind.number ↦ parse_number strtod (c ∷ s)
            | Kind.invalid ↦ failed "Invalid JSON token"
          ])) [
            | Kind.object ↦
                Shrinks-mono (length (skip_ws s)) (suc (length s)) _
                  (omega (arith, length-skip_ws s))
                  (parse_object-Shrinks f (skip_ws s) (omega (arith, length-skip_ws s)))
            | Kind.array ↦
                Shrinks-mono (length (skip_ws s)) (suc (length s)) _
                  (omega (arith, length-skip_ws s))
                  (parse_array-Shrinks f (skip_ws s) (omega (arith, length-skip_ws s)))
            | Kind.string ↦
                as_string-Shrinks R (suc (length s)) _ (parse_string_raw-Shrinks (c ∷ s))
            | Kind.bool ↦ parse_bool-Shrinks R (c ∷ s)
            | Kind.null ↦ parse_null-Shrinks R (c ∷ s)
            | Kind.number ↦ parse_number-Shrinks strtod (c ∷ s)
            | Kind.invalid ↦ tt
          ]

    parse_array-Shrinks :
        (f : ℕ) (s : List ℕ) → 4 * length s + 3 < f → Shrinks (length s) (parse_array strtod f s)
    parse_array-Shrinks zero s h = absurd (omega arith)
    parse_array-Shrinks (suc f) s h =
        after_accept (length s) _ _ _ (accept-LeavesLess b']' s) (λ t l. l)
          (array_loop-Shrinks f JsonArray.no_items s (omega arith))

    array_loop-Shrinks :
        (f : ℕ) (items : JsonArray R) (s : List ℕ)
        → 4 * length s + 2 < f
        → Shrinks (length s) (array_loop strtod f items s)
    array_loop-Shrinks zero items s h = absurd (omega arith)
    array_loop-Shrinks (suc f) items [] h = tt
    array_loop-Shrinks (suc f) items (c ∷ s) h =
        let n = suc (length s) in
        after_value n (parse_value strtod f (skip_ws (c ∷ s))) _
          (Shrinks-mono (length (skip_ws (c ∷ s))) n _ (length-skip_ws (c ∷ s))
            (value-Shrinks f (skip_ws (c ∷ s)) (omega (arith, length-skip_ws (c ∷ s)))))
          (λ v r l.
            after_separator n (separator b']' (skip_ws r)) _ _ _ _
              (separator-SeparatorShrinks b']' n (skip_ws r) (omega (arith, length-skip_ws r)))
              (λ t k.
                Shrinks-mono (length t) n _ (omega arith)
                  (array_loop-Shrinks f (push_back items v) t (omega arith)))
              (λ t k. k))

    parse_object-Shrinks :
        (f : ℕ) (s : List ℕ) → 4 * length s + 3 < f → Shrinks (length s) (parse_object strtod f s)
    parse_object-Shrinks zero s h = absurd (omega arith)
    parse_object-Shrinks (suc f) s h =
        after_accept (length s) _ _ _ (accept-LeavesLess b'}' s) (λ t l. l)
          (object_loop-Shrinks f JsonObject.no_fields s (omega arith))

    object_loop-Shrinks :
        (f : ℕ) (entries : JsonObject R) (s : List ℕ)
        → 4 * length s + 2 < f
        → Shrinks (length s) (object_loop strtod f entries s)
    object_loop-Shrinks zero entries s h = absurd (omega arith)
    object_loop-Shrinks (suc f) entries [] h = tt
    object_loop-Shrinks (suc f) entries (c ∷ s) h =
        let n = suc (length s) in
        after_value n (parse_string_raw (skip_ws (c ∷ s))) _
          (Shrinks-mono (length (skip_ws (c ∷ s))) n _ (length-skip_ws (c ∷ s))
            (parse_string_raw-Shrinks (skip_ws (c ∷ s))))
          (λ key r l.
            after_accept n (accept b':' (skip_ws r)) _ _
              (LeavesLess-mono (length (skip_ws r)) n _ (omega (arith, length-skip_ws r))
                (accept-LeavesLess b':' (skip_ws r)))
              (λ t k.
                Shrinks-mono (length (skip_ws t)) n _ (omega (arith, length-skip_ws t))
                  (field_value-Shrinks f entries key (skip_ws t) (omega (arith, length-skip_ws t))))
              tt)

    field_value-Shrinks :
        (f : ℕ) (entries : JsonObject R) (key s : List ℕ)
        → 4 * length s + 1 < f
        → Shrinks (length s) (field_value strtod f entries key s)
    field_value-Shrinks zero entries key s h = absurd (omega arith)
    field_value-Shrinks (suc f) entries key s h =
        let n = length s in
        after_value n (parse_value strtod f s) _ (value-Shrinks f s (omega arith)) (λ v r l.
          after_separator n (separator b'}' (skip_ws r)) _ _ _ _
            (separator-SeparatorShrinks b'}' n (skip_ws r) (omega (arith, length-skip_ws r)))
            (λ t k.
              Shrinks-mono (length t) n _ (omega arith)
                (object_loop-Shrinks f (emplace entries key v) t (omega arith)))
            (λ t k. k))

  finish-Ends : (n : ℕ) (p : Parsed (JsonValue R)) → Shrinks n p → finish strtod p ≢ out_of_fuel
  unfolding finish
  finish-Ends n (parsed v r) h e = ground arith
  finish-Ends n (failed m) h e = cc
  finish-Ends n overread h e = cc
  finish-Ends n out_of_fuel h e = absurd h

  -- Whatever the text is and whatever the C library says of numbers, the parser comes to an end: as much fuel
  -- as four times the length of the text, and one, is enough for its recursion.
  pub parse_json-Ends : (input : List ℕ) → parse_json strtod input ≢ out_of_fuel
  unfolding parse_json
  parse_json-Ends input =
      finish-Ends (length (skip_ws input)) _
        (value-Shrinks (4 * length input + 1) (skip_ws input) (omega (arith, length-skip_ws input)))
