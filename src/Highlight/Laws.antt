-- ===== src/Highlight/Laws.antt =====
-- The bounds of the score in crates/agent_feed_highlight/src/lib.rs.
use agent_feed.Core.{AgentEvent, score_bonus}
use agent_feed.Highlight.{base_score, file_bonus, score_event}
use agent_feed.Prelude.{arith, ◌≤◌}

-- The score of any event is at most 100, whatever its hint, its severity and its files.
pub score_event-le : (event : AgentEvent) → score_event event ≤ 100
unfolding score_event base_score score_bonus file_bonus
score_event-le event = ground arith
