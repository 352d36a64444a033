-- ===== src/Buffers/Tests.antt =====
-- Runs of the buffers.
use agent_feed.Buffers.{new_reel, new_store, reel_snapshot, store_push}
use agent_feed.Buffers.Laws.{reel_all, reel_snapshot-shows_last, store_all}
use agent_feed.Core.{AgentEvent, Bulletin, EventKind, SourceKind, new_event}
use agent_feed.Highlight.{bulletin_from_event}
use agent_feed.Prelude.{List, [], drop, push_bounded, refl, some, ◌∷◌, ◌≡◌}
use agent_feed.Text.{Str, chars}

abbrev event : Str → AgentEvent
event id = new_event id 100 SourceKind.codex EventKind.turn_start (chars "turn")

compute : Unit {0}
unfolding new_store store_push push_bounded new_event
compute = tt

oldest_dropped :
    (store_all (new_store 1) (event (chars "a") ∷ event (chars "b") ∷ [])).events
    ≡ event (chars "b") ∷ []
unfolding compute
oldest_dropped = refl

abbrev bulletin : Str → Bulletin
bulletin id = bulletin_from_event id 100 (event id)

abbrev bulletins : List Bulletin
bulletins = bulletin (chars "a") ∷ bulletin (chars "b") ∷ bulletin (chars "c") ∷ []

reel_snapshot-shows_last_example :
    ((reel_snapshot (reel_all (new_reel 2) bulletins) 5).bulletins ≡ drop 1 bulletins)
    × ((reel_snapshot (reel_all (new_reel 2) bulletins) 5).active ≡ some (bulletin (chars "c")))
reel_snapshot-shows_last_example = reel_snapshot-shows_last 2 bulletins 5
