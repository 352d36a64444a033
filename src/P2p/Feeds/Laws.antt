-- ===== src/P2p/Feeds/Laws.antt =====
-- The history of a feed, and the deliveries of a capsule.
use agent_feed.P2p.Feeds.{latest_capsules, trim_history}
use agent_feed.P2p.Types.{Capsules}
use agent_feed.Prelude.{All, [], arith, if-cases, length, length-drop, ltb, min, ℕ, ◌-◌, ◌∷◌, ◌≤◌}
use agent_feed.Proto.Capsule.{StoryCapsule}
use agent_feed.Proto.Signing.{Signed}

pub length-trim_history-le :
    (capacity : ℕ) (history : Capsules) → length (trim_history capacity history) ≤ capacity
unfolding trim_history
length-trim_history-le capacity [] = omega arith
length-trim_history-le capacity (signed ∷ history) =
    ground (arith, length-trim_history-le capacity history)

pub All-trim_history :
    (P : Signed StoryCapsule → Type 0) (capacity : ℕ) (history : Capsules)
    → All P history
    → All P (trim_history capacity history)
unfolding trim_history
All-trim_history P capacity [] v = v
All-trim_history P capacity (signed ∷ history) v =
    if-cases (All P) (ltb capacity (length (signed ∷ history))) _ _
      (λ over. All-trim_history P capacity history v.1) (λ fits. v)

pub length-latest_capsules-le :
    (limit : ℕ) (history : Capsules) → length (latest_capsules limit history) ≤ limit
unfolding latest_capsules
length-latest_capsules-le limit history =
    ground (arith, length-drop (length history - min limit (length history)) history)
