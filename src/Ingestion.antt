-- ===== src/Ingestion.antt =====
-- ingestion/: the health reports of the feeds.
pub mod Alerts
pub mod Health
