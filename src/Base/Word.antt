-- ===== src/Base/Word.antt =====
-- Unsigned machine words: a value is a number, and what an operation returns is cut to the width.
use regime_flow.Base.{ℕ, ◌%◌, ◌^◌}

abbrev pub u64 : ℕ → ℕ
u64 n = n % 2 ^ 64

abbrev pub u32 : ℕ → ℕ
u32 n = n % 2 ^ 32
