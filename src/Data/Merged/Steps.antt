-- ===== src/Data/Merged/Steps.antt =====
-- A step of `next` (src/data/merged_iterator.cpp) keeps every iterator covered.
use mathlib.Core.List.Perm
use mathlib.Core.List.{Perm, perm_middle}
use regime_flow.Data.Merged.{Item, HeapEntry, VectorIterator, push_entry, iterator_at}
use regime_flow.Data.Merged.Order.{IsSorted}
use regime_flow.Data.Merged.Cover.{
  remaining, Has, Has-other, Has-push_entry, Has-pushed, AllCovered, AllCovered-mono, Covers-mono,
}
use regime_flow.Base.{
  sym, subst, set, ◌+◌, arith, ◌≡◌, ◌<◌, ◌++◌, Option, ℕ, List, suc, zero, inr, inl, some, ◌∷◌, [],
}

module _ {D : Type 0} where
  -- The items that no iterator has given yet, over all iterators.
  abbrev pub all_remaining : List (Option (VectorIterator D)) → List (Item D)
  all_remaining [] = []
  all_remaining (it ∷ its) = remaining it ++ all_remaining its

  -- What `push_entry` leaves of a cover.
  pub pushed-AllCovered :
      (e : HeapEntry D) (heap : List (HeapEntry D)) (i : ℕ) (its : List (Option (VectorIterator D)))
      → AllCovered heap i its
      → AllCovered (push_entry e heap) i its
  pushed-AllCovered e heap i its c =
      AllCovered-mono heap (push_entry e heap) i its (λ y j l h. Has-push_entry (y, j) e heap h) c

  -- The iterators behind the one whose entry is taken out.
  others-AllCovered :
      (x : Item D) (i k : ℕ) (heap : List (HeapEntry D)) (its : List (Option (VectorIterator D)))
      → i < k
      → AllCovered ((x, i) ∷ heap) k its
      → AllCovered heap k its
  others-AllCovered x i k heap its l c =
      AllCovered-mono ((x, i) ∷ heap) heap k its
        (λ y j m h. Has-other x y i j heap (λ e. omega (arith, e, l, m)) h) c

  -- The iterator `k + j`, at its end, gives way.
  pub ended-AllCovered :
      (x : Item D) (k j : ℕ) (heap : List (HeapEntry D)) (its : List (Option (VectorIterator D)))
      → remaining (iterator_at j its) ≡ []
      → AllCovered ((x, k + j) ∷ heap) k its
      → AllCovered heap k its
  unfolding iterator_at
  ended-AllCovered x k j heap [] e c = tt
  ended-AllCovered x k zero heap (it ∷ its) e c =
      ((c.0.0, inl e), others-AllCovered x (k + 0) (suc k) heap its (omega arith) c.1)
  ended-AllCovered x k (suc j) heap (it ∷ its) e c =
      let place : k + suc j ≡ suc k + j = omega arith in
      (
        (
          c.0.0,
          Covers-mono ((x, k + suc j) ∷ heap) heap k (remaining it)
              (λ y h. Has-other x y (k + suc j) k heap (λ f. omega (arith, f)) h) c.0.1,
        ),
        ended-AllCovered x (suc k) j heap its e
            (subst (λ n. AllCovered ((x, n) ∷ heap) (suc k) its) place c.1),
      )

  -- The iterator `k + j` gives its next item to the heap.
  pub fed-AllCovered :
      (x w : Item D) (v : VectorIterator D) (k j : ℕ) (heap : List (HeapEntry D))
      (its : List (Option (VectorIterator D)))
      → remaining (iterator_at j its) ≡ w ∷ remaining (some v)
      → AllCovered ((x, k + j) ∷ heap) k its
      → AllCovered (push_entry (w, k + j) heap) k (set its j (some v))
  unfolding iterator_at
  fed-AllCovered x w v k j heap [] e c = tt
  fed-AllCovered x w v k zero heap (it ∷ its) e c =
      let sorted = subst IsSorted e c.0.0 in
      let here : k + 0 ≡ k = omega arith in
      (
        (
          sorted.1,
          inr (
            w,
            subst (λ n. Has (w, n) (push_entry (w, k + 0) heap)) here (Has-pushed (w, k + 0) heap),
            sorted.0,
          ),
        ),
        pushed-AllCovered (w, k + 0) heap (suc k) its
            (others-AllCovered x (k + 0) (suc k) heap its (omega arith) c.1),
      )
  fed-AllCovered x w v k (suc j) heap (it ∷ its) e c =
      let place : k + suc j ≡ suc k + j = omega arith in
      let rest =
        fed-AllCovered x w v (suc k) j heap its e
          (subst (λ n. AllCovered ((x, n) ∷ heap) (suc k) its) place c.1) in
      (
        (
          c.0.0,
          Covers-mono ((x, k + suc j) ∷ heap) (push_entry (w, k + suc j) heap) k (remaining it)
              (λ y h.
                Has-push_entry (y, k) (w, k + suc j) heap
                  (Has-other x y (k + suc j) k heap (λ f. omega (arith, f)) h))
              c.0.1,
        ),
        subst (λ n. AllCovered (push_entry (w, n) heap) (suc k) (set its j (some v))) (sym place)
            rest,
      )

  -- An iterator that gives an item loses that item alone.
  pub all_remaining-set :
      (w : Item D) (v : VectorIterator D) (j : ℕ) (its : List (Option (VectorIterator D)))
      → remaining (iterator_at j its) ≡ w ∷ remaining (some v)
      → Perm (all_remaining its) (w ∷ all_remaining (set its j (some v)))
  unfolding iterator_at
  all_remaining-set w v j [] e = absurd (grind (arith, e))
  all_remaining-set w v zero (it ∷ its) e =
      subst (λ l. Perm (l ++ all_remaining its) (w ∷ (remaining (some v) ++ all_remaining its)))
        (sym e) (Perm.refl (w ∷ (remaining (some v) ++ all_remaining its)))
  all_remaining-set w v (suc j) (it ∷ its) e =
      Perm.trans (Perm.append_left (remaining it) (all_remaining-set w v j its e))
        (perm_middle (remaining it) (all_remaining (set its j (some v))))
