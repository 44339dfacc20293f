-- ===== src/Regime.antt =====
-- Market regimes: include/regimeflow/regime and src/regime.
pub mod StateManager
