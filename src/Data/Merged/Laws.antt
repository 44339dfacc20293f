-- ===== src/Data/Merged/Laws.antt =====
-- What the merged iterator of src/data/merged_iterator.cpp gives: all items of all vectors, in order.
use mathlib.Core.List.Perm
use mathlib.Core.List.{Perm, perm_middle}
use regime_flow.Data.Merged.{
  push_entry, Item, HeapEntry, VectorIterator, MergedIterator, fetch, iterator_at, refill,
  next_of_heap, next,
}
use regime_flow.Data.Merged.Order.{
  Le, Le-self, All-Le, IsHeap, push_entry-IsHeap, push_entry-perm, items_of,
}
use regime_flow.Data.Merged.Cover.{remaining, Fetches, fetch-Fetches, Has, Covers, AllCovered}
use regime_flow.Data.Merged.Steps.{
  fed-AllCovered, all_remaining, all_remaining-set, ended-AllCovered,
}
use regime_flow.Base.{
  arith, ◌∙◌, ◌+◌, ap, sym, set, subst, ◌≡◌, All, ◌++◌, Option, ℕ, List, suc, refl, inr, inl, some,
  none, ◌∷◌, [],
}

from_zero : (i : ℕ) → i ≡ 0 + i
from_zero i = omega arith

module _ {D : Type 0} where
  abbrev pub contents : MergedIterator D → List (Item D)
  contents m = items_of m.heap ++ all_remaining m.iterators

  pub record IsReady (m : MergedIterator D) : Type 0 where
    pub heap_sorted : IsHeap m.heap
    pub covered : AllCovered m.heap 0 m.iterators

  -- An entry that comes before an item of an iterator comes before all that are left there.
  head-All :
      (x : Item D) (heap : List (HeapEntry D)) (i : ℕ) (r : List (Item D))
      → All (λ (f : HeapEntry D). Le x f.0) heap
      → Covers heap i r
      → All (Le x) r
  head-All x heap i r a (inl e) = subst (λ l. All (Le x) l) (sym e) tt
  head-All x heap i r a (inr (y, h, b)) = All-Le x y r (first heap a h) b
    where
      first :
          (es : List (HeapEntry D))
          → All (λ (f : HeapEntry D). Le x f.0) es
          → Has (y, i) es
          → Le x y
      first [] a h = absurd h
      first (e ∷ es) a (inl p) = subst (λ (f : HeapEntry D). Le x f.0) (sym p) a.0
      first (e ∷ es) a (inr h) = first es a.1 h

  All-append :
      (x : Item D) (xs ys : List (Item D)) → All (Le x) xs → All (Le x) ys → All (Le x) (xs ++ ys)
  All-append x [] ys a b = b
  All-append x (z ∷ xs) ys a b = (a.0, All-append x xs ys a.1 b)

  head-all_remaining :
      (x : Item D) (heap : List (HeapEntry D)) (i : ℕ) (its : List (Option (VectorIterator D)))
      → All (λ (f : HeapEntry D). Le x f.0) heap
      → AllCovered heap i its
      → All (Le x) (all_remaining its)
  head-all_remaining x heap i [] a c = tt
  head-all_remaining x heap i (it ∷ its) a c =
      All-append x (remaining it) (all_remaining its) (head-All x heap i (remaining it) a c.0.1)
        (head-all_remaining x heap (suc i) its a c.1)

  entries-items :
      (x : Item D) (heap : List (HeapEntry D))
      → All (λ (f : HeapEntry D). Le x f.0) heap
      → All (Le x) (items_of heap)
  entries-items x [] a = tt
  entries-items x (e ∷ heap) a = (a.0, entries-items x heap a.1)

  -- With an empty heap nothing is left.
  nothing_left :
      (i : ℕ) (its : List (Option (VectorIterator D)))
      → AllCovered [] i its
      → all_remaining its ≡ []
  nothing_left i [] c = refl
  nothing_left i (it ∷ its) c = empty_front (remaining it) c.0.1 (nothing_left (suc i) its c.1)
    where
      empty_front :
          {ys : List (Item D)} (r : List (Item D)) → Covers [] i r → ys ≡ [] → r ++ ys ≡ []
      empty_front {ys} r (inl e) f = ap (λ l. l ++ ys) e ∙ f
      empty_front r (inr (y, h, a)) f = absurd h

  -- How `next` ends.
  abbrev pub Gives : MergedIterator D → Option (Item D) × MergedIterator D → Type 0
  Gives m (none, n) = contents m ≡ []
  Gives m (some x, n) = Perm (contents m) (x ∷ contents n) × All (Le x) (contents m) × IsReady n

  numbered :
      (x : Item D) (i : ℕ) (heap : List (HeapEntry D)) (its : List (Option (VectorIterator D)))
      → AllCovered ((x, i) ∷ heap) 0 its
      → AllCovered ((x, 0 + i) ∷ heap) 0 its
  numbered x i heap its c = subst (λ n. AllCovered ((x, n) ∷ heap) 0 its) (from_zero i) c

  refill-Gives :
      (x : Item D) (i : ℕ) (heap : List (HeapEntry D)) (its : List (Option (VectorIterator D)))
      (r : Option (Item D × VectorIterator D))
      → IsReady (record { iterators = its; heap = (x, i) ∷ heap })
      → Fetches (iterator_at i its) r
      → let n = refill i r (record { iterators = its; heap = heap }) in
        Perm (items_of heap ++ all_remaining its) (contents n) × IsReady n
  unfolding refill
  refill-Gives x i heap its none v f = (
    Perm.refl (items_of heap ++ all_remaining its),
    record {
      heap_sorted = v.heap_sorted.1;
      covered = ended-AllCovered x 0 i heap its f (numbered x i heap its v.covered);
    },
  )
  refill-Gives x i heap its (some (w, it)) v f =
      let its' = set its i (some it) in
      (
        Perm.trans (Perm.append_left (items_of heap) (all_remaining-set w it i its f)) (
            Perm.trans (perm_middle (items_of heap) (all_remaining its'))
              (Perm.append_right (all_remaining its') (Perm.symm (push_entry-perm (w, i) heap)))),
        record {
          heap_sorted = push_entry-IsHeap (w, i) heap v.heap_sorted.1;
          covered =
              subst (λ n. AllCovered (push_entry (w, n) heap) 0 its') (sym (from_zero i))
                (fed-AllCovered x w it 0 i heap its f (numbered x i heap its v.covered));
        },
      )

  next_of_heap-Gives :
      (heap : List (HeapEntry D)) (its : List (Option (VectorIterator D)))
      → IsReady (record { iterators = its; heap = heap })
      → Gives
          (record { iterators = its; heap = heap })
          (next_of_heap heap (record { iterators = its; heap = heap }))
  unfolding next_of_heap
  next_of_heap-Gives [] its v = nothing_left 0 its v.covered
  next_of_heap-Gives ((x, i) ∷ heap) its v =
      let (order, ready) =
        refill-Gives x i heap its (fetch (iterator_at i its)) v
          (fetch-Fetches (iterator_at i its)) in
      let before : All (λ (f : HeapEntry D). Le x f.0) ((x, i) ∷ heap) =
        (Le-self x, v.heap_sorted.0) in
      (
        Perm.cons x order,
        All-append x (items_of ((x, i) ∷ heap)) (all_remaining its)
            (entries-items x ((x, i) ∷ heap) before)
            (head-all_remaining x ((x, i) ∷ heap) 0 its before v.covered),
        ready,
      )

  -- A call of `next` on a merged iterator fails only if nothing is left. Otherwise it gives an item that comes
  -- before all the others that are left, and keeps these.
  pub next-Gives : (m : MergedIterator D) → IsReady m → Gives m (next m)
  unfolding next
  next-Gives m v =
      next_of_heap-Gives m.heap m.iterators
        (record { heap_sorted = v.heap_sorted; covered = v.covered })
