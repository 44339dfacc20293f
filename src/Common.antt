-- ===== src/Common.antt =====
-- The shared parts of the program, src/common and include/regimeflow/common.
pub mod Sha256
pub mod Symbols
pub mod SpscQueue
pub mod MpscQueue
pub mod Json
