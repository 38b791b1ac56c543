-- ===== src/Analytics.antt =====
-- analytics/: economics of the closed trades, the P&L of one, and the equity curve.
pub mod Metrics
pub mod EquityCurve
