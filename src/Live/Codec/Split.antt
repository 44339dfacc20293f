-- ===== src/Live/Codec/Split.antt =====
-- That `split` of src/live/mq_codec.cpp takes apart what was joined.
use regime_flow.Live.Codec.Text.{split, join, tokens}
use regime_flow.Base.{
  subst, arith, refl, sym, ◌&&◌, ap, ◌==◌, ◌∙◌, not, ◌≡◌, Bool, List, String, false, true, ◌∷◌, [],
}
use Prim.Native.String.{◌++◌ as str_append}
use Prim.Native.Char.{Char, code}
use text.Mathlib.Text.{◌==◌ as str_eq}
use text.Mathlib.TextLemmas.{append_assoc, append-nil, nil-append, cons-append}

abbrev pub has_no_bar : String → Bool
has_no_bar String.[] = true
has_no_bar (String.◌∷◌ c s) = not (code c == 124) && has_no_bar s

-- The fields of a line: none has a `|` in it, and the last is not empty.
abbrev pub IsLine : List String → Type 0
IsLine [] = ⊥
IsLine (f ∷ []) = (has_no_bar f ≡ true) × (str_eq f "" ≡ false)
IsLine (f ∷ g ∷ fs) = (has_no_bar f ≡ true) × IsLine (g ∷ fs)

and_parts : (a b : Bool) → (not a && b) ≡ true → (a ≡ false) × (b ≡ true)
and_parts true b h = absurd (ground (arith, h))
and_parts false b h = (refl, h)

-- A character that is no `|` joins the token.
tokens-char :
    (c : Char) (token s : String)
    → (code c == 124) ≡ false
    → tokens token (String.◌∷◌ c s) ≡ tokens (str_append token (String.◌∷◌ c "")) s
unfolding tokens
tokens-char c token s h = rw h refl

append-char :
    (c : Char) (token s : String)
    → str_append (str_append token (String.◌∷◌ c "")) s ≡ str_append token (String.◌∷◌ c s)
append-char c token s =
    append_assoc token (String.◌∷◌ c "") s
    ∙ ap (str_append token)
        (cons-append c "" s ∙ ap (λ (t : String). String.◌∷◌ c t) (nil-append s))

tokens-field :
    (f token rest : String)
    → has_no_bar f ≡ true
    → tokens token (str_append f (String.◌∷◌ "|" rest)) ≡ str_append token f ∷ tokens "" rest
tokens-field String.[] token rest h =
    ap (tokens token) (nil-append (String.◌∷◌ "|" rest))
    ∙ unfold tokens in ap (λ (t : String). t ∷ tokens "" rest) (sym (append-nil token))
tokens-field (String.◌∷◌ c f) token rest h =
    let (plain, more) = and_parts (code c == 124) (has_no_bar f) h in
    ap (tokens token) (cons-append c f (String.◌∷◌ "|" rest))
    ∙ tokens-char c token (str_append f (String.◌∷◌ "|" rest)) plain
    ∙ tokens-field f (str_append token (String.◌∷◌ c "")) rest more
    ∙ ap (λ (t : String). t ∷ tokens "" rest) (append-char c token f)

tokens-last :
    (f token : String)
    → has_no_bar f ≡ true
    → str_eq (str_append token f) "" ≡ false
    → tokens token f ≡ str_append token f ∷ []
tokens-last String.[] token h k =
    let e = append-nil token in
    let k' : str_eq token "" ≡ false = subst (λ t. str_eq t "" ≡ false) e k in
    unfold tokens in rw k' (ap (λ (t : String). t ∷ []) (sym e))
tokens-last (String.◌∷◌ c f) token h k =
    let (plain, more) = and_parts (code c == 124) (has_no_bar f) h in
    let e = append-char c token f in
    tokens-char c token f plain
    ∙ tokens-last f (str_append token (String.◌∷◌ c "")) more
        (subst (λ t. str_eq t "" ≡ false) (sym e) k)
    ∙ ap (λ (t : String). t ∷ []) e

tokens-join : (fs : List String) → IsLine fs → tokens "" (join fs) ≡ fs
unfolding join
tokens-join [] l = absurd l
tokens-join (f ∷ []) l =
    let e = nil-append f in
    tokens-last f "" l.0 (subst (λ t. str_eq t "" ≡ false) (sym e) l.1)
    ∙ ap (λ (t : String). t ∷ []) e
tokens-join (f ∷ g ∷ fs) l =
    tokens-field f "" (join (g ∷ fs)) l.0
    ∙ ap (λ t. t ∷ tokens "" (join (g ∷ fs))) (nil-append f)
    ∙ ap (λ (t : List String). f ∷ t) (tokens-join (g ∷ fs) l.1)

pub split-join : (fs : List String) → IsLine fs → split (join fs) ≡ fs
unfolding split
split-join fs l = tokens-join fs l
