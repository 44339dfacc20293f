-- ===== src/Risk.antt =====
-- The checks of an order before it is sent, src/risk/risk_limits.cpp and include/regimeflow/risk/risk_limits.h.
pub mod Limits
pub mod Manager
pub mod Holdings
pub mod Decision
pub mod Exposure
pub mod StopLoss
mod Tests
