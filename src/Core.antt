-- ===== src/Core.antt =====
-- crates/agent_feed_core/src/lib.rs: the event and bulletin types that every crate shares.
mod Kinds
mod Event
mod Display
pub mod Names
pub mod Run
unfoldable pub use Kinds.*
unfoldable pub use Event.*
unfoldable pub use Display.*
