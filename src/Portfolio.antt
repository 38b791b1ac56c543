-- ===== src/Portfolio.antt =====
-- portfolio/: the paper ledger and the paper executor.
pub mod Position
pub mod Ledger
pub mod Orders
pub mod Queue
pub mod Executor
