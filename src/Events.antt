-- ===== src/Events.antt =====
-- Events and the queue that orders them: include/regimeflow/events.
pub mod Event
pub mod Queue
