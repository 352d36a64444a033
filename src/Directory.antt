-- ===== src/Directory.antt =====
-- crates/agent_feed_directory/src/lib.rs: the directory of feeds and the routes into it.
mod Tests
pub mod Types
pub mod Query
pub mod Filters
pub mod Route
pub mod Entry
pub mod Store
pub mod Visible
pub mod Views
