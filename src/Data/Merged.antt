-- ===== src/Data/Merged.antt =====
-- src/data/merged_iterator.cpp and the vector iterators of src/data/memory_data_source.cpp.
--
-- Each of the two files has three copies of one class, for bars, ticks and order books. An item is any of
-- them: its time, its symbol and the rest, in `D`. `std::priority_queue` is its elements in the order in which
-- it gives them back. The iterators that are merged are those of vectors.
pub mod Order
pub mod Cover
pub mod Steps
pub mod Laws
pub mod Whole
mod Tests
use regime_flow.Base.Int.{ℤ, eqb_ℤ, ltb_ℤ}
use regime_flow.Base.{
  map, false, true, ℕ, suc, Bool, not, Option, none, some, List, [], ◌∷◌, get_elem?, set, ltb,
  if◌then◌else◌,
}

pub record Item (D : Type 0) : Type 0 where
  pub timestamp : ℤ
  pub symbol : ℕ
  pub rest : D

pub record VectorIterator (D : Type 0) : Type 0 where
  pub items : List (Item D)
  pub index : ℕ

-- An item and the number of the iterator that gave it.
abbrev pub HeapEntry : Type 0 → Type 0
HeapEntry D = Item D × ℕ

-- A null pointer among the iterators is `none`.
pub record MergedIterator (D : Type 0) : Type 0 where
  pub iterators : List (Option (VectorIterator D))
  pub heap : List (HeapEntry D)

module _ {D : Type 0} where
  -- The comparison by which a vector is sorted: whether `a` comes before `b`.
  unfoldable pub comes_before : Item D → Item D → Bool
  comes_before a b =
      if eqb_ℤ a.timestamp b.timestamp then ltb a.symbol b.symbol else ltb_ℤ a.timestamp b.timestamp

  -- `HeapCompare`: whether `a` is taken from the heap after `b`.
  unfoldable pub is_later : Item D → Item D → Bool
  is_later a b =
      if not (eqb_ℤ a.timestamp b.timestamp)
      then ltb_ℤ b.timestamp a.timestamp
      else ltb b.symbol a.symbol

  unfoldable pub insert_item : Item D → List (Item D) → List (Item D)
  insert_item x [] = x ∷ []
  insert_item x (y ∷ ys) = if comes_before x y then x ∷ y ∷ ys else y ∷ insert_item x ys

  -- `std::ranges::sort`
  unfoldable pub sort : List (Item D) → List (Item D)
  unfolding insert_item
  sort [] = []
  sort (x ∷ xs) = insert_item x (sort xs)

  unfoldable pub vector_iterator : List (Item D) → VectorIterator D
  unfolding sort
  vector_iterator items = record { items = sort items; index = 0 }

  unfoldable pub rewind : VectorIterator D → VectorIterator D
  rewind it = record it { index = 0 }

  -- `next` where `has_next` holds, and nothing where it does not.
  unfoldable pub next_item : VectorIterator D → Option (Item D × VectorIterator D)
  next_item it = elim (get_elem? it.items it.index) [
    | none ↦ none
    | some x ↦ some (x, record it { index = suc it.index })
  ]

  -- `iterator && iterator->has_next()`, and the `next` that follows
  unfoldable pub fetch : Option (VectorIterator D) → Option (Item D × VectorIterator D)
  unfolding next_item
  fetch none = none
  fetch (some it) = next_item it

  -- `heap_.push`
  unfoldable pub push_entry : HeapEntry D → List (HeapEntry D) → List (HeapEntry D)
  push_entry e [] = e ∷ []
  push_entry e (f ∷ fs) = if is_later f.0 e.0 then e ∷ f ∷ fs else f ∷ push_entry e fs

  -- The loop of `initialize_heap`, from the iterator number `i` on: the iterators behind it and the heap.
  unfoldable pub fill_heap :
      ℕ
      → List (Option (VectorIterator D))
      → List (HeapEntry D)
      → List (Option (VectorIterator D)) × List (HeapEntry D)
  unfolding fetch push_entry
  fill_heap i [] heap = ([], heap)
  fill_heap i (it ∷ its) heap = elim (fetch it) [
    | none ↦ let (rest, heap') = fill_heap (suc i) its heap in (it ∷ rest, heap')
    | some (x, it') ↦
        let (rest, heap') = fill_heap (suc i) its (push_entry (x, i) heap) in
        (some it' ∷ rest, heap')
  ]

  unfoldable pub initialize_heap : List (Option (VectorIterator D)) → MergedIterator D
  unfolding fill_heap
  initialize_heap its =
      let (its', heap) = fill_heap 0 its [] in record { iterators = its'; heap = heap }

  unfoldable pub has_next : MergedIterator D → Bool
  has_next m = elim m.heap [ [] ↦ false | _ ∷ _ ↦ true ]

  -- `iterators_[iterator_index]`; the index of an entry is always that of an iterator.
  unfoldable pub iterator_at : ℕ → List (Option (VectorIterator D)) → Option (VectorIterator D)
  iterator_at i its = elim (get_elem? its i) [ none ↦ none | some it ↦ it ]

  unfoldable pub refill :
      ℕ → Option (Item D × VectorIterator D) → MergedIterator D → MergedIterator D
  unfolding push_entry
  refill i none m = m
  refill i (some (x, it)) m = record {
    iterators = set m.iterators i (some it);
    heap = push_entry (x, i) m.heap;
  }

  unfoldable pub next_of_heap :
      List (HeapEntry D) → MergedIterator D → Option (Item D) × MergedIterator D
  unfolding refill fetch iterator_at
  next_of_heap [] m = (none, m)
  next_of_heap ((x, i) ∷ heap) m =
      (some x, refill i (fetch (iterator_at i m.iterators)) (record m { heap = heap }))

  -- `next`; nothing stands for the exception.
  unfoldable pub next : MergedIterator D → Option (Item D) × MergedIterator D
  unfolding next_of_heap
  next m = next_of_heap m.heap m

  unfoldable pub reset : MergedIterator D → MergedIterator D
  unfolding initialize_heap rewind
  reset m =
      initialize_heap (map (λ it. elim it [ none ↦ none | some v ↦ some (rewind v) ]) m.iterators)

  -- `create_iterator` of the vectors of items that were found.
  unfoldable pub create_iterator : List (List (Item D)) → MergedIterator D
  unfolding initialize_heap vector_iterator
  create_iterator vectors = initialize_heap (map (λ v. some (vector_iterator v)) vectors)
