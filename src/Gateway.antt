-- ===== src/Gateway.antt =====
-- gateway/: the fan-out of the events to the browsers, and what a restart restores.
pub mod Broadcaster
pub mod Startup
