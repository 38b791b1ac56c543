-- ===== src/Risk.antt =====
-- risk/: deterministic sizing, the pre-trade checks and the stop monitor.
pub mod Sizing
pub mod Engine
