-- ===== src/Common/Symbols/Laws.antt =====
-- That names and numbers of the registry of src/common/types.cpp determine each other.
use regime_flow.Base.StringTable.{find-put, find, put}
use text.Mathlib.TextEquality.{eq_iff}
use regime_flow.Common.Symbols.{
  empty_registry, u32, intern, lookup_symbol, SymbolRegistry, with_sentinel, name_at,
}
use regime_flow.Base.{
  sym, subst, ◌^◌, Option-cases, ◌≢◌, ◌+◌, inr, inl, none, length-append, ◌==◌, if◌then◌else◌, ◌≤◌,
  arith, ◌++◌, ◌≡◌, length, get_elem?, ◌<◌, ℕ, String, List, suc, zero, refl, some, ◌∷◌, [],
}

get_elem?-snoc :
    (names : List String) (s : String) (j : ℕ)
    → get_elem? (names ++ s ∷ []) j ≡ (if j == length names then some s else get_elem? names j)
get_elem?-snoc [] s zero = refl
get_elem?-snoc [] s (suc j) = ground arith
get_elem?-snoc (x ∷ names) s zero = ground arith
get_elem?-snoc (x ∷ names) s (suc j) = ground (arith, get_elem?-snoc names s j)

name_at-snoc :
    (names : List String) (s : String) (j : ℕ)
    → 0 < length names
    → name_at j (names ++ s ∷ []) ≡ (if j == length names then some s else name_at j names)
unfolding name_at
name_at-snoc names s j h = ground (arith, h, get_elem?-snoc names s j, length-append names (s ∷ []))

name_at-with_sentinel :
    (names : List String) (j : ℕ) → name_at j (with_sentinel names) ≡ name_at j names
unfolding name_at with_sentinel
name_at-with_sentinel [] j = ground arith
name_at-with_sentinel (name ∷ names) j = refl

length-with_sentinel :
    (names : List String)
    → (0 < length (with_sentinel names)) × (length (with_sentinel names) ≤ suc (length names))
unfolding with_sentinel
length-with_sentinel [] = (omega arith, omega arith)
length-with_sentinel (name ∷ names) = (omega arith, omega arith)

-- A number has a name exactly if the name has the number.
pub record IsConsistent (r : SymbolRegistry) : Type 0 where
  pub known : (id : ℕ) (s : String) → lookup_symbol id r ≡ some s → find s r.symbol_to_id ≡ some id
  pub named : (id : ℕ) (s : String) → find s r.symbol_to_id ≡ some id → lookup_symbol id r ≡ some s

pub empty_registry-IsConsistent : IsConsistent empty_registry
unfolding lookup_symbol find
empty_registry-IsConsistent = record {
  known = λ id s h. ground (arith, h);
  named = λ id s h. ground (arith, h);
}

-- There is a 32-bit number left for a new symbol.
abbrev pub HasNumbers : SymbolRegistry → Type 0
HasNumbers r = length r.id_to_symbol + 1 < 2 ^ 32

abbrev extended : SymbolRegistry → String → SymbolRegistry
extended r s = record {
  symbol_to_id = put s (length (with_sentinel r.id_to_symbol)) r.symbol_to_id;
  id_to_symbol = with_sentinel r.id_to_symbol ++ s ∷ [];
}

lookup-extended :
    (r : SymbolRegistry) (s : String) (j : ℕ)
    → lookup_symbol j (extended r s)
      ≡ (if j == length (with_sentinel r.id_to_symbol) then some s else lookup_symbol j r)
unfolding lookup_symbol
lookup-extended r s j = ground (
  arith,
  name_at-snoc (with_sentinel r.id_to_symbol) s j (length-with_sentinel r.id_to_symbol).0,
  name_at-with_sentinel r.id_to_symbol j,
)

lookup-beyond :
    (r : SymbolRegistry) (s : String)
    → lookup_symbol (length (with_sentinel r.id_to_symbol)) r ≢ some s
unfolding lookup_symbol
lookup-beyond r s h =
    let e = name_at-with_sentinel r.id_to_symbol (length (with_sentinel r.id_to_symbol)) in
    unfold name_at in ground (arith, e, h)

extended-IsConsistent :
    (r : SymbolRegistry) (s : String)
    → IsConsistent r
    → find s r.symbol_to_id ≡ none
    → IsConsistent (extended r s)
extended-IsConsistent r s c e = record {
  known = λ id t h. ground (
    arith,
    eq_iff s t,
    find-put s t (length (with_sentinel r.id_to_symbol)) r.symbol_to_id,
    lookup-extended r s id,
    c.known id t,
    e,
    h,
  );
  named = λ id t h. ground (
    arith,
    eq_iff s t,
    find-put s t (length (with_sentinel r.id_to_symbol)) r.symbol_to_id,
    lookup-extended r s id,
    lookup-extended r s (length (with_sentinel r.id_to_symbol)),
    lookup-beyond r t,
    c.named id t,
    e,
    h,
  );
}

-- What `intern` of `s` gives: a consistent registry in which the number is that of `s`, and keeps it, and
-- whatever had a name before has it still.
abbrev pub Interns : String → SymbolRegistry → ℕ × SymbolRegistry → Type 0
Interns s r (id, q) =
    (lookup_symbol id q ≡ some s)
    × (intern s q ≡ (id, q))
    × ((j : ℕ) (t : String) → lookup_symbol j r ≡ some t → lookup_symbol j q ≡ some t)
    × IsConsistent q

pub intern-known :
    (s : String) (r : SymbolRegistry) (id : ℕ)
    → find s r.symbol_to_id ≡ some id
    → intern s r ≡ (id, r)
unfolding intern
intern-known s r id e = rw (e, intern) refl

known-Interns :
    (s : String) (r : SymbolRegistry) (id : ℕ)
    → IsConsistent r
    → find s r.symbol_to_id ≡ some id
    → Interns s r (id, r)
known-Interns s r id c e = (c.named id s e, intern-known s r id e, λ j t h. h, c)

extended-Interns :
    (s : String) (r : SymbolRegistry)
    → IsConsistent r
    → find s r.symbol_to_id ≡ none
    → Interns s r (length (with_sentinel r.id_to_symbol), extended r s)
extended-Interns s r c e =
    let id = length (with_sentinel r.id_to_symbol) in
    let q = extended-IsConsistent r s c e in
    let named : lookup_symbol id (extended r s) ≡ some s = ground (arith, lookup-extended r s id) in
    let known = known-Interns s (extended r s) id q (q.known id s named) in
    (named, known.1, λ j t h. ground (arith, lookup-extended r s j, lookup-beyond r t, h), q)

intern-new :
    (s : String) (r : SymbolRegistry)
    → HasNumbers r
    → find s r.symbol_to_id ≡ none
    → intern s r ≡ (length (with_sentinel r.id_to_symbol), extended r s)
unfolding intern
intern-new s r h e =
    let n : u32 (length (with_sentinel r.id_to_symbol)) ≡ length (with_sentinel r.id_to_symbol) =
      omega (arith, (length-with_sentinel r.id_to_symbol).1) in
    rw (e, intern, n) refl

-- Interning a symbol, as long as a number is left, gives a number that looks up to the symbol, which further
-- interning of it gives again; no number that has a name loses it, and names and numbers still determine
-- each other.
pub intern-Interns :
    (s : String) (r : SymbolRegistry) → IsConsistent r → HasNumbers r → Interns s r (intern s r)
intern-Interns s r c h = elim (Option-cases (find s r.symbol_to_id)) [
  | inl e ↦ subst (Interns s r) (sym (intern-new s r h e)) (extended-Interns s r c e)
  | inr (id, e) ↦ subst (Interns s r) (sym (intern-known s r id e)) (known-Interns s r id c e)
]
