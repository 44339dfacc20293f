-- ===== src/Common/Symbols/Tests.antt =====
-- The registry of src/common/types.cpp with a few symbols.
use regime_flow.Base.StringTable.{find, put}
use regime_flow.Common.Symbols.Laws.{empty_registry-IsConsistent, intern-Interns, Interns}
use regime_flow.Common.Symbols.{empty_registry, intern}
use regime_flow.Base.{◌≡◌, arith, refl}

number_of_second : (intern "MSFT" (intern "AAPL" empty_registry).1).0 ≡ 2
unfolding intern find put
number_of_second = refl

intern-Interns_example : Interns "AAPL" empty_registry (intern "AAPL" empty_registry)
intern-Interns_example =
    intern-Interns "AAPL" empty_registry empty_registry-IsConsistent (omega arith)
