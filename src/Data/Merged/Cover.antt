-- ===== src/Data/Merged/Cover.antt =====
-- Each iterator of src/data/merged_iterator.cpp that is not at its end has an entry in the heap that comes
-- before all of its items that are left.
use regime_flow.Data.Merged.{
  is_later, Item, HeapEntry, VectorIterator, push_entry, fetch, next_item,
}
use regime_flow.Data.Merged.Order.{Le, IsSorted}
use regime_flow.Base.{
  ap, All, sym, arith, ◌⊎◌, ◌≢◌, Bool-cases, ◌≤◌, Option-cases, ◌≡◌, get_elem?, ℕ, List, Option,
  drop, suc, zero, refl, inr, inl, some, none, ◌∷◌, [],
}

-- The items that an iterator has not given yet.
abbrev pub remaining : {D : Type 0} → Option (VectorIterator D) → List (Item D)
remaining none = []
remaining (some it) = drop it.index it.items

module _ {ℓ} {A : Type ℓ} where
  -- What is left of a list at a place where it has this element.
  abbrev LeftAt : List A → ℕ → Option A → Type ℓ
  LeftAt xs i none = drop i xs ≡ []
  LeftAt xs i (some x) = drop i xs ≡ x ∷ drop (suc i) xs

  get_elem?-LeftAt : (xs : List A) (i : ℕ) → LeftAt xs i (get_elem? xs i)
  unfolding drop
  get_elem?-LeftAt [] zero = refl
  get_elem?-LeftAt [] (suc i) = refl
  get_elem?-LeftAt (x ∷ xs) zero = refl
  get_elem?-LeftAt (x ∷ xs) (suc i) = ground (arith, get_elem?-LeftAt xs i)

module _ {D : Type 0} where
  abbrev pub Fetches : Option (VectorIterator D) → Option (Item D × VectorIterator D) → Type 0
  Fetches it none = remaining it ≡ []
  Fetches it (some (x, it')) = remaining it ≡ x ∷ remaining (some it')

  pub fetch-Fetches : (it : Option (VectorIterator D)) → Fetches it (fetch it)
  unfolding fetch
  fetch-Fetches none = refl
  fetch-Fetches (some it) = elim (Option-cases (get_elem? it.items it.index)) [
    | inl e ↦ rw (e, next_item) (rw e at (get_elem?-LeftAt it.items it.index))
    | inr (x, e) ↦ rw (e, next_item) (rw e at (get_elem?-LeftAt it.items it.index))
  ]

  abbrev pub Has : HeapEntry D → List (HeapEntry D) → Type 0
  Has e [] = ⊥
  Has e (f ∷ fs) = (e ≡ f) ⊎ Has e fs

  -- The iterator number `i`, with the items `r` left, is at its end or has an entry that comes before them.
  abbrev pub Covers : List (HeapEntry D) → ℕ → List (Item D) → Type 0
  Covers heap i r = (r ≡ []) ⊎ ((y : Item D) × Has (y, i) heap × All (Le y) r)

  abbrev pub AllCovered : List (HeapEntry D) → ℕ → List (Option (VectorIterator D)) → Type 0
  AllCovered heap i [] = Unit
  AllCovered heap i (it ∷ its) =
      (IsSorted (remaining it) × Covers heap i (remaining it)) × AllCovered heap (suc i) its

  -- Whatever the first heap has the second has too, among the entries of iterators that `P` picks.
  pub Covers-mono :
      (heap heap' : List (HeapEntry D)) (i : ℕ) (r : List (Item D))
      → ((y : Item D) → Has (y, i) heap → Has (y, i) heap')
      → Covers heap i r
      → Covers heap' i r
  Covers-mono heap heap' i r k (inl e) = inl e
  Covers-mono heap heap' i r k (inr (y, h, a)) = inr (y, k y h, a)

  pub AllCovered-mono :
      (heap heap' : List (HeapEntry D)) (i : ℕ) (its : List (Option (VectorIterator D)))
      → ((y : Item D) (j : ℕ) → i ≤ j → Has (y, j) heap → Has (y, j) heap')
      → AllCovered heap i its
      → AllCovered heap' i its
  AllCovered-mono heap heap' i [] k c = tt
  AllCovered-mono heap heap' i (it ∷ its) k c = (
    (c.0.0, Covers-mono heap heap' i (remaining it) (λ y. k y i (omega arith)) c.0.1),
    AllCovered-mono heap heap' (suc i) its (λ y j h. k y j (omega (arith, h))) c.1,
  )

  pub Has-push_entry :
      (e f : HeapEntry D) (fs : List (HeapEntry D)) → Has e fs → Has e (push_entry f fs)
  unfolding push_entry
  Has-push_entry e f [] h = absurd h
  Has-push_entry e f (g ∷ fs) (inl h) = elim (Bool-cases (is_later g.0 f.0)) [
    | inl c ↦ rw c (inr (inl h))
    | inr c ↦ rw c (inl h)
  ]
  Has-push_entry e f (g ∷ fs) (inr h) = elim (Bool-cases (is_later g.0 f.0)) [
    | inl c ↦ rw c (inr (inr h))
    | inr c ↦ rw c (inr (Has-push_entry e f fs h))
  ]

  pub Has-pushed : (f : HeapEntry D) (fs : List (HeapEntry D)) → Has f (push_entry f fs)
  unfolding push_entry
  Has-pushed f [] = inl refl
  Has-pushed f (g ∷ fs) = elim (Bool-cases (is_later g.0 f.0)) [
    | inl c ↦ rw c (inl refl)
    | inr c ↦ rw c (inr (Has-pushed f fs))
  ]

  -- Without the entry of the iterator `i` the entries of the others are still there.
  pub Has-other :
      (x y : Item D) (i j : ℕ) (heap : List (HeapEntry D))
      → i ≢ j
      → Has (y, j) ((x, i) ∷ heap)
      → Has (y, j) heap
  Has-other x y i j heap n (inl e) = absurd (n (sym (ap (λ (p : HeapEntry D). p.1) e)))
  Has-other x y i j heap n (inr h) = h
