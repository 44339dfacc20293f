-- ===== src/Engine.antt =====
-- The engine of the backtester: include/regimeflow/engine and src/engine.
pub mod Order
pub mod OrderManager
pub mod EventLoop
pub mod Portfolio
pub mod TimerService
