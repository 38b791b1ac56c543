-- ===== src/Discovery.antt =====
-- discovery/: the projection that ranks the instruments that nobody watches.
pub mod Floats
pub mod Scoring
pub mod Extraction
pub mod Engine
pub mod Votes
pub mod Ranking
pub mod Groups
pub mod Projection
