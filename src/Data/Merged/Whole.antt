-- ===== src/Data/Merged/Whole.antt =====
-- A whole run of a merged iterator (src/data/merged_iterator.cpp), from `create_iterator` to its end.
use mathlib.Core.List.Perm
use mathlib.Core.List.{Perm, perm_middle}
use regime_flow.Base.Perm.{All-perm, length-perm}
use regime_flow.Data.Merged.{
  initialize_heap, create_iterator, vector_iterator, Item, HeapEntry, VectorIterator,
  MergedIterator, push_entry, fetch, fill_heap, next,
}
use regime_flow.Data.Merged.Order.{
  sort-perm, sort-IsSorted, push_entry-perm, Le, Le-IsProp, IsSorted, IsHeap, push_entry-IsHeap,
  items_of,
}
use regime_flow.Data.Merged.Cover.{
  remaining, Fetches, fetch-Fetches, Has, Has-push_entry, Has-pushed, AllCovered,
}
use regime_flow.Data.Merged.Steps.{all_remaining}
use regime_flow.Data.Merged.Laws.{contents, IsReady, Gives, next-Gives}
use regime_flow.Base.{
  map, drop, ◌≡◌, Option-cases, inr, inl, sym, arith, subst, ◌≤◌, ◌++◌, length, Option, List, ℕ,
  suc, zero, some, none, ◌∷◌, [],
}

module _ {D : Type 0} where
  -- The items that up to `k` calls of `next` give.
  unfoldable pub take_all : ℕ → MergedIterator D → List (Item D)
  take_all zero m = []
  take_all (suc k) m =
      let (first, n) = next m in
      let rest = take_all k n in elim first [ none ↦ [] | some x ↦ x ∷ rest ]

  abbrev pub Merges : List (Item D) → List (Item D) → Type 0
  Merges all xs = Perm xs all × IsSorted xs

  take_step :
      (k : ℕ) (m : MergedIterator D) (r : Option (Item D)) (n : MergedIterator D)
      → Gives m (r, n)
      → length (contents m) ≤ suc k
      → (length (contents n) ≤ k → IsReady n → Merges (contents n) (take_all k n))
      → Merges (contents m) (elim r [ none ↦ [] | some x ↦ x ∷ take_all k n ])
  take_step k m none n g h ih = (subst (Perm []) (sym g) (Perm.refl []), tt)
  take_step k m (some x) n g h ih =
      let s = ih (omega (arith, length-perm g.0, h)) g.2 in
      let later = All-perm (Le x) (Le-IsProp x) g.0 g.1 in
      (
        Perm.trans (Perm.cons x s.0) (Perm.symm g.0),
        (All-perm (Le x) (Le-IsProp x) (Perm.symm s.0) later.1, s.1),
      )

  none_left : (xs : List (Item D)) → length xs ≤ 0 → Merges xs []
  none_left [] h = (Perm.refl [], tt)
  none_left (x ∷ xs) h = absurd (omega (arith, h))

  take_all-Merges :
      (k : ℕ) (m : MergedIterator D)
      → length (contents m) ≤ k
      → IsReady m
      → Merges (contents m) (take_all k m)
  unfolding take_all
  take_all-Merges zero m h v = none_left (contents m) h
  take_all-Merges (suc k) m h v =
      let (r, n) = next m in
      take_step k m r n (next-Gives m v) h (λ h' v'. take_all-Merges k n h' v')

  -- All items of all vectors.
  abbrev pub all_items : List (List (Item D)) → List (Item D)
  all_items [] = []
  all_items (v ∷ vs) = v ++ all_items vs

  AllSorted : List (Option (VectorIterator D)) → Type 0
  AllSorted [] = Unit
  AllSorted (it ∷ its) = IsSorted (remaining it) × AllSorted its

  -- What the loop of `initialize_heap` leaves, from the iterator number `i` on.
  record IsFilled (i : ℕ) (its : List (Option (VectorIterator D))) (heap : List (HeapEntry D))
      (p : List (Option (VectorIterator D)) × List (HeapEntry D)) : Type 0 where
    covered : AllCovered p.1 i p.0
    heap_sorted : IsHeap p.1
    same_items : Perm (items_of p.1 ++ all_remaining p.0) (items_of heap ++ all_remaining its)
    kept : (e : HeapEntry D) → Has e heap → Has e p.1

  past : (a r b : List (Item D)) → Perm (a ++ (r ++ b)) (r ++ (a ++ b))
  past a [] b = Perm.refl (a ++ b)
  past a (x ∷ r) b = Perm.trans (perm_middle a (r ++ b)) (Perm.cons x (past a r b))

  -- The same items before two permuted lists, at any place.
  inserted :
      (r a b c d : List (Item D)) → Perm (a ++ b) (c ++ d) → Perm (a ++ (r ++ b)) (c ++ (r ++ d))
  inserted r a b c d p =
      Perm.trans (past a r b) (Perm.trans (Perm.append_left r p) (Perm.symm (past c r d)))

  fed_items :
      (x : Item D) (r' r a b : List (Item D)) (i : ℕ) (heap : List (HeapEntry D))
      (d : List (Item D))
      → r ≡ x ∷ r'
      → Perm (a ++ b) (items_of (push_entry (x, i) heap) ++ d)
      → Perm (a ++ (r' ++ b)) (items_of heap ++ (r ++ d))
  fed_items x r' r a b i heap d f p =
      subst (λ l. Perm (a ++ (r' ++ b)) (items_of heap ++ (l ++ d))) (sym f)
        (Perm.trans (inserted r' a b (items_of (push_entry (x, i) heap)) d p) (
          Perm.trans (Perm.append_right (r' ++ d) (push_entry-perm (x, i) heap))
            (Perm.symm (perm_middle (items_of heap) (r' ++ d)))))

  fill_heap-IsFilled :
      (i : ℕ) (its : List (Option (VectorIterator D))) (heap : List (HeapEntry D))
      → IsHeap heap
      → AllSorted its
      → IsFilled i its heap (fill_heap i its heap)
  unfolding fill_heap AllSorted
  fill_heap-IsFilled i [] heap v s = record {
    covered = tt;
    heap_sorted = v;
    same_items = Perm.refl (items_of heap ++ []);
    kept = λ e h. h;
  }
  fill_heap-IsFilled i (it ∷ its) heap v s = elim (Option-cases (fetch it)) [
    | inl e ↦
        let f = subst (Fetches it) e (fetch-Fetches it) in
        let q = fill_heap-IsFilled (suc i) its heap v s.1 in
        let (rest, heap') = fill_heap (suc i) its heap in
        rw (e, fill_heap)
          (record {
            covered = ((s.0, inl f), q.covered);
            heap_sorted = q.heap_sorted;
            same_items =
                inserted (remaining it) (items_of heap') (all_remaining rest) (items_of heap)
                  (all_remaining its) q.same_items;
            kept = q.kept;
          })
    | inr ((x, it'), e) ↦
        let f = subst (Fetches it) e (fetch-Fetches it) in
        let sorted = subst IsSorted f s.0 in
        let heap1 = push_entry (x, i) heap in
        let q = fill_heap-IsFilled (suc i) its heap1 (push_entry-IsHeap (x, i) heap v) s.1 in
        let (rest, heap') = fill_heap (suc i) its heap1 in
        rw (e, fill_heap)
          (record {
            covered =
                ((sorted.1, inr (x, q.kept (x, i) (Has-pushed (x, i) heap), sorted.0)), q.covered);
            heap_sorted = q.heap_sorted;
            same_items =
                fed_items x (remaining (some it')) (remaining it) (items_of heap')
                  (all_remaining rest) i heap (all_remaining its) f q.same_items;
            kept = λ e h. q.kept e (Has-push_entry e (x, i) heap h);
          })
  ]

  vectors-AllSorted :
      (vs : List (List (Item D))) → AllSorted (map (λ v. some (vector_iterator v)) vs)
  unfolding AllSorted vector_iterator drop
  vectors-AllSorted [] = tt
  vectors-AllSorted (v ∷ vs) = (sort-IsSorted v, vectors-AllSorted vs)

  vectors-items :
      (vs : List (List (Item D)))
      → Perm (all_remaining (map (λ v. some (vector_iterator v)) vs)) (all_items vs)
  unfolding vector_iterator drop
  vectors-items [] = Perm.refl []
  vectors-items (v ∷ vs) =
      Perm.trans
        (Perm.append_right (all_remaining (map (λ v. some (vector_iterator v)) vs)) (sort-perm v))
        (Perm.append_left v (vectors-items vs))

  -- The merge of any vectors, taken to its end, gives each item of each vector once, in order of time and, at
  -- one time, of symbol.
  pub create_iterator-Merges :
      (k : ℕ) (vs : List (List (Item D)))
      → length (all_items vs) ≤ k
      → Merges (all_items vs) (take_all k (create_iterator vs))
  unfolding create_iterator initialize_heap
  create_iterator-Merges k vs h =
      let its = map (λ v. some (vector_iterator v)) vs in
      let (its', heap) = fill_heap 0 its [] in
      let q = fill_heap-IsFilled 0 its [] tt (vectors-AllSorted vs) in
      let m : MergedIterator D = record { iterators = its'; heap = heap } in
      let all : Perm (contents m) (all_items vs) = Perm.trans q.same_items (vectors-items vs) in
      let s =
        take_all-Merges k m (omega (arith, length-perm all, h))
          (record { heap_sorted = q.heap_sorted; covered = q.covered }) in
      (Perm.trans s.0 all, s.1)
