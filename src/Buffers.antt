-- ===== src/Buffers.antt =====
-- crates/agent_feed_store/src/lib.rs and crates/agent_feed_reel/src/lib.rs: the bounded buffers of
-- events and of bulletins.
mod Tests
pub mod Laws
use agent_feed.Core.{AgentEvent, Bulletin, Time}
use agent_feed.Prelude.{List, Option, [], last?, max, push_bounded, ℕ}

pub record InMemoryStore : Type 0 where
  pub capacity : ℕ
  pub events : List AgentEvent

unfoldable pub new_store : ℕ → InMemoryStore
new_store capacity = record { capacity = max capacity 1; events = [] }

-- `push`: the oldest event is dropped where the store is full.
unfoldable pub store_push : InMemoryStore → AgentEvent → InMemoryStore
store_push store event = record store { events = push_bounded store.capacity store.events event }

pub record ReelBuffer : Type 0 where
  pub capacity : ℕ
  pub bulletins : List Bulletin

pub record ReelSnapshot : Type 0 where
  pub generated_at : Time
  pub active : Option Bulletin
  pub bulletins : List Bulletin

unfoldable pub new_reel : ℕ → ReelBuffer
new_reel capacity = record { capacity = max capacity 1; bulletins = [] }

unfoldable pub reel_push : ReelBuffer → Bulletin → ReelBuffer
reel_push reel bulletin = record reel {
  bulletins = push_bounded reel.capacity reel.bulletins bulletin;
}

unfoldable pub reel_snapshot : ReelBuffer → Time → ReelSnapshot
reel_snapshot reel now = record {
  generated_at = now;
  active = last? reel.bulletins;
  bulletins = reel.bulletins;
}
