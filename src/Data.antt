-- ===== src/Data.antt =====
-- Market data, src/data and include/regimeflow/data.
pub mod Merged
pub mod Bars
