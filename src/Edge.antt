-- ===== src/Edge.antt =====
-- crates/agent_feed_edge/src/lib.rs: sessions, access policies and what a session may see.
pub mod Sessions
pub mod Access
pub mod Visibility
pub mod Snapshot
pub mod Publish
mod Tests
