-- ===== src/Reasoning.antt =====
-- reasoning/: the generators of theses and decisions, the end of theses, and the language model's replies.
pub mod Cache
pub mod Invalidator
pub mod Replies
pub mod Decisions
pub mod Theses
