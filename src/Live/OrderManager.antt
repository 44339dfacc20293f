-- ===== src/Live/OrderManager.antt =====
-- src/live/live_order_manager.cpp and include/regimeflow/live/live_order_manager.h.
pub mod State
pub mod Draft
pub mod Submission
pub mod Operations
pub mod Reports
pub mod Agreement
pub mod Numbers
pub mod Invariant
pub mod Life
pub mod Fresh
pub mod Known
