-- ===== src/Engine/OrderManager.antt =====
-- src/engine/order_manager.cpp and include/regimeflow/engine/order_manager.h.
pub mod State
pub mod Routing
pub mod Validation
pub mod Status
pub mod Operations
pub mod Queries
pub mod Frame
pub mod Pending
pub mod Returning
pub mod Termination
pub mod Acceptance
pub mod Open
pub mod Plain
pub mod Submission
pub mod Cancellation
pub mod Modification
pub mod Filling
pub mod Children
pub mod Totals
pub mod Completion
mod Tests
