-- ===== src/Summarize.antt =====
-- crates/agent_feed_summarize/src/lib.rs: the summaries of stories and how alike two of them are.
pub mod Types
pub mod Similarity
pub mod Config
pub mod Quality
pub mod Decision
pub mod Feed
pub mod Clamp
mod Tests
