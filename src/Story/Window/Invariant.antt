-- ===== src/Story/Window/Invariant.antt =====
-- The invariant of a window: its counters, its lists and its summary.
use agent_feed.Core.{AgentEvent, EventKind}
use agent_feed.Highlight.Laws.{score_event-le}
use agent_feed.Prelude.{
  Bool, Bool-cases, Distinct, Distinct-snoc, List, Option, [], any_eq, ap, arith, false,
  if◌then◌else◌, inl, inr, is_some_and, length, length-append, list_eq, nat_eq, none, option_eq,
  pair_eq, refl, some, sym, take, true, wrapping_add, wrapping_add-mod, ℕ, ◌%◌, ◌++◌, ◌^◌, ◌∷◌, ◌≡◌,
  ◌≤◌,
}
use agent_feed.Story.Summaries.{summary_is_redundant}
use agent_feed.Story.Types.{StoryCounters, StoryKey, StoryWindow}
use agent_feed.Story.Window.{
  count_kind, kept_summary, kept_topics, new_window, observe_with_publishable, observed_signals,
  push_all_new, push_new,
}
use agent_feed.Text.{Str}

pub record IsWellFormed (w : StoryWindow) : Type 0 where
  pub counted : w.counters.events ≡ length w.events % 2 ^ 64
  pub publishable : w.publishable_events ≤ length w.events
  pub score : w.signals.highest_score ≤ 100
  pub topics : Distinct w.signals.command_topics
  pub files : Distinct w.signals.files
  pub summary : is_some_and w.signals.latest_summary summary_is_redundant ≡ false

push_new-Distinct :
    (items : List Str) (item : Str) → Distinct items → Distinct (push_new items item)
unfolding push_new
push_new-Distinct items item d = elim (Bool-cases (any_eq items item)) [
  | inl old ↦ rw old d
  | inr new ↦ rw new (Distinct-snoc items item d new)
]

push_all_new-Distinct :
    (items more : List Str) → Distinct items → Distinct (push_all_new items more)
unfolding push_all_new
push_all_new-Distinct items [] d = d
push_all_new-Distinct items (item ∷ more) d =
    push_all_new-Distinct (push_new items item) more (push_new-Distinct items item d)

count_kind-events :
    (kind : EventKind) (files : List Str) (c : StoryCounters)
    → (count_kind kind files c).events ≡ c.events
unfolding count_kind
count_kind-events EventKind.session_start files c = refl
count_kind-events _ files c = refl

pub new_window-IsWellFormed : (key : StoryKey) (now : ℕ) → IsWellFormed (new_window key now)
unfolding new_window
new_window-IsWellFormed key now = record {
  counted = refl;
  publishable = omega arith;
  score = omega arith;
  topics = tt;
  files = tt;
  summary = refl;
}

kept_summary-clean :
    (new old : Option Str)
    → is_some_and old summary_is_redundant ≡ false
    → is_some_and (kept_summary new old) summary_is_redundant ≡ false
unfolding kept_summary
kept_summary-clean none old h = h
kept_summary-clean (some summary) old h = elim (Bool-cases (summary_is_redundant summary)) [
  | inl redundant ↦ rw redundant h
  | inr fine ↦ rw fine fine
]

kept_topics-Distinct :
    (topic : Option Str) (topics : List Str) → Distinct topics → Distinct (kept_topics topic topics)
unfolding kept_topics
kept_topics-Distinct none topics d = d
kept_topics-Distinct (some topic) topics d = push_new-Distinct topics topic d

publishable_bound :
    (w : StoryWindow) (event : AgentEvent) (publishable : Bool)
    → w.publishable_events ≤ length w.events
    → (if publishable then wrapping_add w.publishable_events 1 else w.publishable_events)
      ≤ length (w.events ++ event.id ∷ [])
unfolding wrapping_add
publishable_bound w event true h = omega (arith, length-append w.events (event.id ∷ []))
publishable_bound w event false h = omega (arith, length-append w.events (event.id ∷ []))

-- Observing any event, as context or as activity, keeps a window well-formed: its event counter is
-- the number of its events modulo 2 ^ 64, no more events are publishable than it has, its highest
-- score is at most 100, its topics and files do not repeat, and no redundant summary is kept.
pub observe-IsWellFormed :
    (w : StoryWindow) (event : AgentEvent) (publishable : Bool)
    → IsWellFormed w
    → IsWellFormed (observe_with_publishable w event publishable)
unfolding observe_with_publishable observed_signals
observe-IsWellFormed w event publishable h = record {
  counted =
      rw
        (
          count_kind-events event.kind event.files _,
          h.counted,
          wrapping_add-mod (length w.events) 1,
        )
        (ap (λ n. n % 2 ^ 64) (sym (length-append w.events (event.id ∷ []))));
  publishable = publishable_bound w event publishable h.publishable;
  score = omega (arith, h.score, score_event-le event);
  topics = kept_topics-Distinct _ w.signals.command_topics h.topics;
  files = push_all_new-Distinct w.signals.files (take 8 event.files) h.files;
  summary = kept_summary-clean event.summary w.signals.latest_summary h.summary;
}
