-- ===== src/Data/Merged/Tests.antt =====
-- The merge of src/data/merged_iterator.cpp on small inputs.
use regime_flow.Base.Int.{pos}
use regime_flow.Data.Merged.{ℤ, Item, create_iterator, comes_before, is_later, next}
use regime_flow.Data.Merged.Whole.{take_all, Merges, all_items, create_iterator-Merges}
use regime_flow.Base.{◌≡◌, ℕ, arith, drop, List, refl, ◌∷◌, []}

abbrev bar : ℤ → ℕ → Item ℕ
bar timestamp symbol = record { timestamp = timestamp; symbol = symbol; rest = 0 }

abbrev two_vectors : List (List (Item ℕ))
two_vectors = (bar (pos 0) 1 ∷ bar (pos 2) 1 ∷ []) ∷ (bar (pos 2) 2 ∷ bar (pos 1) 2 ∷ []) ∷ []

in_order :
    take_all 4 (create_iterator two_vectors)
    ≡ bar (pos 0) 1 ∷ bar (pos 1) 2 ∷ bar (pos 2) 1 ∷ bar (pos 2) 2 ∷ []
unfolding take_all next create_iterator comes_before is_later drop
in_order = refl

create_iterator-Merges_example :
    Merges (all_items two_vectors) (take_all 4 (create_iterator two_vectors))
create_iterator-Merges_example = create_iterator-Merges 4 two_vectors (omega arith)
