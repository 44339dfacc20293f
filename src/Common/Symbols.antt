-- ===== src/Common/Symbols.antt =====
-- `SymbolRegistry` of src/common/types.cpp and include/regimeflow/common/types.h: the numbers that stand for
-- symbols. Each method holds the registry's mutex.
pub mod Laws
mod Tests
use regime_flow.Base.Word.{u32}
use regime_flow.Base.StringTable.{put, find, StringTable}
use regime_flow.Base.{
  get_elem?, leb, ◌++◌, ◌||◌, ◌==◌, length, if◌then◌else◌, Option, ℕ, String, List, some, none, ◌∷◌,
  [],
}

pub record SymbolRegistry : Type 0 where
  pub symbol_to_id : StringTable ℕ
  pub id_to_symbol : List String

abbrev pub empty_registry : SymbolRegistry
empty_registry = record { symbol_to_id = []; id_to_symbol = [] }

-- Zero is kept for no symbol.
unfoldable pub with_sentinel : List String → List String
with_sentinel [] = "" ∷ []
with_sentinel (name ∷ names) = name ∷ names

unfoldable pub intern : String → SymbolRegistry → ℕ × SymbolRegistry
unfolding with_sentinel
intern symbol r = elim (find symbol r.symbol_to_id) [
  | some id ↦ (id, r)
  | none ↦
      let names = with_sentinel r.id_to_symbol in
      let id = u32 (length names) in
      (
        id,
        record { symbol_to_id = put symbol id r.symbol_to_id; id_to_symbol = names ++ symbol ∷ [] },
      )
]

unfoldable pub name_at : ℕ → List String → Option String
name_at id names = if (id == 0) || leb (length names) id then none else get_elem? names id

-- `lookup`; nothing stands for the exception.
unfoldable pub lookup_symbol : ℕ → SymbolRegistry → Option String
unfolding name_at
lookup_symbol id r = name_at id r.id_to_symbol
