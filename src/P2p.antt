-- ===== src/P2p.antt =====
-- crates/agent_feed_p2p/src/lib.rs: the network in memory, the peers on it and the runtime.
mod Tests
pub mod Types
pub mod Monad
pub mod Access
pub mod Fabric
pub mod Discovery
pub mod Feeds
pub mod Plane
pub mod Messages
pub mod Runtime
pub mod Invariant
