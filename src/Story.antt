-- ===== src/Story.antt =====
-- crates/agent_feed_story/src/lib.rs: the compiler that reduces agent events to settled stories.
pub mod Types
pub mod Keys
pub mod Vocabulary
pub mod Summaries
pub mod Window
pub mod Scores
pub mod Signature
pub mod Rewrite
pub mod Copy
pub mod Quality
pub mod Compile
pub mod Bulletin
pub mod Compiler
mod Tests
