-- ===== src/Data/Merged/Order.antt =====
-- The order of items by time and symbol, the comparisons of the sort (src/data/memory_data_source.cpp) and of
-- the heap (include/regimeflow/data/merged_iterator.h) against it, and the sorted lists of it.
use native.Mathlib.Bridge.{le_prop}
use mathlib.Core.List.Perm
use mathlib.Core.List.{Perm}
use regime_flow.Data.Merged.{Item, HeapEntry, comes_before, is_later, insert_item, sort, push_entry}
use regime_flow.Base.Int.{◌<ℤ◌, ◌≤ℤ◌}
use regime_flow.Base.{
  ap, ◌⊎◌, ◌≤◌, map, Bool-cases, All, arith, ◌≡◌, inr, inl, false, true, ◌∷◌, [], List,
}

module _ {D : Type 0} where
  -- `a` is earlier than `b` or, at the same time, has no greater symbol.
  abbrev pub Le : Item D → Item D → Type 0
  Le a b =
      (a.timestamp <ℤ b.timestamp)
      ⊎ ((a.timestamp ≤ℤ b.timestamp) × (b.timestamp ≤ℤ a.timestamp) × (a.symbol ≤ b.symbol))

  pub Le-IsProp : (a b : Item D) → IsProp (Le a b)
  Le-IsProp a b (inl p) (inl q) = ap inl (le_prop p q)
  Le-IsProp a b (inl p) (inr q) = absurd (omega arith)
  Le-IsProp a b (inr p) (inl q) = absurd (omega arith)
  Le-IsProp a b (inr p) (inr q) = ap inr (same p q)
    where
      same :
          IsProp
            ((a.timestamp ≤ℤ b.timestamp) × (b.timestamp ≤ℤ a.timestamp) × (a.symbol ≤ b.symbol))
      same = hlevel (le_prop)

  pub Le-self : (a : Item D) → Le a a
  Le-self a = inr (omega arith, omega arith, omega arith)

  pub Le-trans : (a b c : Item D) → Le a b → Le b c → Le a c
  Le-trans a b c (inl h) (inl k) = inl (omega arith)
  Le-trans a b c (inl h) (inr k) = inl (omega arith)
  Le-trans a b c (inr h) (inl k) = inl (omega arith)
  Le-trans a b c (inr h) (inr k) = inr (omega arith, omega arith, omega arith)

  -- What the two comparisons say of this order.
  Le-of_before : (a b : Item D) → comes_before a b ≡ true → Le a b
  unfolding comes_before
  Le-of_before a b h = ground arith

  Le-of_not_before : (a b : Item D) → comes_before a b ≡ false → Le b a
  unfolding comes_before
  Le-of_not_before a b h = ground arith

  Le-of_later : (a b : Item D) → is_later a b ≡ true → Le b a
  unfolding is_later
  Le-of_later a b h = ground arith

  Le-of_not_later : (a b : Item D) → is_later a b ≡ false → Le a b
  unfolding is_later
  Le-of_not_later a b h = ground arith

  abbrev pub IsSorted : List (Item D) → Type 0
  IsSorted [] = Unit
  IsSorted (x ∷ xs) = All (Le x) xs × IsSorted xs

  pub All-Le : (a b : Item D) (xs : List (Item D)) → Le a b → All (Le b) xs → All (Le a) xs
  All-Le a b [] h k = tt
  All-Le a b (x ∷ xs) h k = (Le-trans a b x h k.0, All-Le a b xs h k.1)

  All-insert_item :
      (a x : Item D) (ys : List (Item D)) → Le a x → All (Le a) ys → All (Le a) (insert_item x ys)
  unfolding insert_item
  All-insert_item a x [] h k = (h, tt)
  All-insert_item a x (y ∷ ys) h k = ground (arith, All-insert_item a x ys h k.1)

  insert_item-IsSorted :
      (x : Item D) (ys : List (Item D)) → IsSorted ys → IsSorted (insert_item x ys)
  unfolding insert_item
  insert_item-IsSorted x [] s = (tt, tt)
  insert_item-IsSorted x (y ∷ ys) s = elim (Bool-cases (comes_before x y)) [
    | inl h ↦ rw h ((Le-of_before x y h, All-Le x y ys (Le-of_before x y h) s.0), s)
    | inr h ↦
        rw h (All-insert_item y x ys (Le-of_not_before x y h) s.0, insert_item-IsSorted x ys s.1)
  ]

  insert_item-perm : (x : Item D) (ys : List (Item D)) → Perm (insert_item x ys) (x ∷ ys)
  unfolding insert_item
  insert_item-perm x [] = Perm.refl (x ∷ [])
  insert_item-perm x (y ∷ ys) = elim (Bool-cases (comes_before x y)) [
    | inl h ↦ rw h (Perm.refl (x ∷ y ∷ ys))
    | inr h ↦ rw h (Perm.trans (Perm.cons y (insert_item-perm x ys)) (Perm.swap x y ys))
  ]

  pub sort-IsSorted : (xs : List (Item D)) → IsSorted (sort xs)
  unfolding sort
  sort-IsSorted [] = tt
  sort-IsSorted (x ∷ xs) = insert_item-IsSorted x (sort xs) (sort-IsSorted xs)

  pub sort-perm : (xs : List (Item D)) → Perm (sort xs) xs
  unfolding sort
  sort-perm [] = Perm.refl []
  sort-perm (x ∷ xs) = Perm.trans (insert_item-perm x (sort xs)) (Perm.cons x (sort-perm xs))

  -- The heap gives its entries in order.
  abbrev pub IsHeap : List (HeapEntry D) → Type 0
  IsHeap [] = Unit
  IsHeap (e ∷ es) = All (λ (f : HeapEntry D). Le e.0 f.0) es × IsHeap es

  All-push_entry :
      (a : Item D) (e : HeapEntry D) (fs : List (HeapEntry D))
      → Le a e.0
      → All (λ (f : HeapEntry D). Le a f.0) fs
      → All (λ (f : HeapEntry D). Le a f.0) (push_entry e fs)
  unfolding push_entry
  All-push_entry a e [] h k = (h, tt)
  All-push_entry a e (f ∷ fs) h k = ground (arith, All-push_entry a e fs h k.1)

  All-entries :
      (a b : Item D) (es : List (HeapEntry D))
      → Le a b
      → All (λ (f : HeapEntry D). Le b f.0) es
      → All (λ (f : HeapEntry D). Le a f.0) es
  All-entries a b [] h k = tt
  All-entries a b (e ∷ es) h k = (Le-trans a b e.0 h k.0, All-entries a b es h k.1)

  pub push_entry-IsHeap :
      (e : HeapEntry D) (fs : List (HeapEntry D)) → IsHeap fs → IsHeap (push_entry e fs)
  unfolding push_entry
  push_entry-IsHeap e [] s = (tt, tt)
  push_entry-IsHeap e (f ∷ fs) s = elim (Bool-cases (is_later f.0 e.0)) [
    | inl h ↦ let le = Le-of_later f.0 e.0 h in rw h ((le, All-entries e.0 f.0 fs le s.0), s)
    | inr h ↦
        rw h (All-push_entry f.0 e fs (Le-of_not_later f.0 e.0 h) s.0, push_entry-IsHeap e fs s.1)
  ]

  abbrev pub items_of : List (HeapEntry D) → List (Item D)
  items_of es = map (λ (e : HeapEntry D). e.0) es

  pub push_entry-perm :
      (e : HeapEntry D) (fs : List (HeapEntry D))
      → Perm (items_of (push_entry e fs)) (e.0 ∷ items_of fs)
  unfolding push_entry
  push_entry-perm e [] = Perm.refl (e.0 ∷ [])
  push_entry-perm e (f ∷ fs) = elim (Bool-cases (is_later f.0 e.0)) [
    | inl h ↦ rw h (Perm.refl (e.0 ∷ f.0 ∷ items_of fs))
    | inr h ↦
        rw h (Perm.trans (Perm.cons f.0 (push_entry-perm e fs)) (Perm.swap e.0 f.0 (items_of fs)))
  ]
