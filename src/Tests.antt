-- ===== src/Tests.antt =====
-- Runs of the desk at the default settings, and the theorems at concrete inputs.
pub mod Samples
pub mod Desk
mod Witnesses
mod Log
mod Feeds
mod Replies
mod Outcomes
mod Streams
mod Finds
mod Theses
