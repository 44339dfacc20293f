-- ===== src/Live.antt =====
-- Live trading, src/live.
pub mod Order
pub mod OrderManager
pub mod Message
pub mod Codec
pub mod EventBus
mod Tests
