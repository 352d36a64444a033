-- ===== src/Story/Scores.antt =====
-- The scores of a window and the tests on its state.
use agent_feed.Core.{AgentEvent, EventKind, Severity, is_urgent}
use agent_feed.Prelude.{
  Bool, Option, any_eq, as_u8, false, if◌then◌else◌, is_empty, is_none_or, is_some, is_some_and,
  leb, list_eq, ltb, max, min, nat_eq, none, not, option_eq, pair_eq, saturating_add, some, true, ℕ,
  ◌&&◌, ◌+◌, ◌==◌, ◌||◌,
}
use agent_feed.Story.Keys.{is_turn}
use agent_feed.Story.Summaries.{publishable_agent_summary_for_project}
use agent_feed.Story.Types.{StoryWindow, StoryWindowState, default_min_score}
use agent_feed.Text.{Str, chars}

unfoldable pub kind_outcome : EventKind → Option Str
kind_outcome EventKind.turn_complete = some (chars "turn completed")
kind_outcome EventKind.turn_fail = some (chars "turn failed")
kind_outcome EventKind.tool_complete = some (chars "tool completed")
kind_outcome EventKind.tool_fail = some (chars "tool failed")
kind_outcome EventKind.permission_denied = some (chars "permission denied")
kind_outcome EventKind.permission_request = some (chars "permission requested")
kind_outcome EventKind.test_pass = some (chars "test passed")
kind_outcome EventKind.test_fail = some (chars "test failed")
kind_outcome EventKind.file_changed = some (chars "files changed")
kind_outcome EventKind.diff_created = some (chars "diff created")
kind_outcome EventKind.mcp_fail = some (chars "mcp failed")
kind_outcome EventKind.plan_update = some (chars "plan updated")
kind_outcome EventKind.summary_created = some (chars "summary created")
kind_outcome EventKind.agent_message = some (chars "progress update")
kind_outcome _ = none

unfoldable pub outcome_label : StoryWindow → Option Str
outcome_label window = elim window.signals.latest_kind [
  | none ↦ none
  | some kind ↦ kind_outcome kind
]

unfoldable pub has_command_burst : StoryWindow → Bool
has_command_burst window =
    is_turn window.key.family
    && leb 4 window.counters.commands
    && window.counters.files_changed == 0
    && window.counters.tests_failed == 0
    && window.counters.tests_passed == 0
    && window.counters.permissions == 0
    && window.counters.mcp_failures == 0

unfoldable pub has_command_topic : StoryWindow → Str → Bool
has_command_topic window topic = any_eq window.signals.command_topics topic

-- `latest_summary.is_some_and(publishable_agent_summary_for_project)`
unfoldable pub has_publishable_summary : StoryWindow → Bool
has_publishable_summary window =
    is_some_and window.signals.latest_summary
      (λ summary. publishable_agent_summary_for_project summary window.key.project_hash)

unfoldable pub story_score : StoryWindow → ℕ
story_score window =
    let hinted =
      if is_turn window.key.family && has_publishable_summary window
      then max window.signals.highest_score 74
      else window.signals.highest_score in
    let burst =
      if has_command_burst window
      then max hinted (68 + as_u8 (min window.counters.commands 8))
      else hinted in
    min burst 100

abbrev is_severe : Severity → Bool
is_severe Severity.warning = true
is_severe Severity.critical = true
is_severe _ = false

abbrev bonus : Bool → ℕ → ℕ → ℕ
bonus test points score = if test then saturating_add score points else score

unfoldable pub context_score : StoryWindow → ℕ
context_score window =
    let signals = window.signals in
    let placed =
      is_some window.key.project_hash
      || not (is_empty signals.files)
      || is_some signals.latest_tool
      || is_some signals.latest_command_class in
    let score = bonus (not (is_empty window.key.agent)) 18 0 in
    let score = bonus (is_some signals.latest_kind) 18 score in
    let score = bonus placed 18 score in
    let score = bonus (is_some (outcome_label window)) 22 score in
    let score = bonus (leb default_min_score (story_score window)) 16 score in
    let score = bonus (is_severe signals.highest_severity) 8 score in min score 100

unfoldable pub should_retain_open_window : StoryWindow → Bool
should_retain_open_window window =
    is_turn window.key.family
    && leb 30 window.signals.highest_score
    && ltb window.counters.events 128

abbrev is_turn_end : EventKind → Bool
is_turn_end EventKind.turn_complete = true
is_turn_end EventKind.turn_fail = true
is_turn_end _ = false

abbrev is_open : StoryWindowState → Bool
is_open StoryWindowState.open_window = true
is_open StoryWindowState.settled = false

unfoldable pub is_open_turn_window : StoryWindow → Bool
is_open_turn_window window =
    is_turn window.key.family
    && is_open window.state
    && is_none_or window.signals.latest_kind (λ kind. not (is_turn_end kind))

-- The kinds of events that settle their window.
unfoldable pub settles : EventKind → Bool
settles EventKind.turn_complete = true
settles EventKind.turn_fail = true
settles EventKind.plan_update = true
settles EventKind.test_pass = true
settles EventKind.test_fail = true
settles EventKind.permission_request = true
settles EventKind.permission_denied = true
settles EventKind.file_changed = true
settles EventKind.tool_fail = true
settles EventKind.mcp_fail = true
settles EventKind.summary_created = true
settles _ = false

unfoldable pub should_settle : AgentEvent → StoryWindow → Bool
should_settle event window =
    settles event.kind || is_urgent event.kind && leb 90 window.signals.highest_score

unfoldable pub never_published : EventKind → Bool
never_published EventKind.session_start = true
never_published EventKind.session_end = true
never_published EventKind.turn_start = true
never_published EventKind.command_exec = true
never_published EventKind.tool_start = true
never_published EventKind.mcp_call = true
never_published EventKind.web_search = true
never_published EventKind.adapter_health = true
never_published _ = false

abbrev is_agent_message : EventKind → Bool
is_agent_message EventKind.agent_message = true
is_agent_message _ = false

unfoldable pub is_never_publish_event : AgentEvent → Bool
is_never_publish_event event =
    never_published event.kind
    || is_agent_message event.kind
      && is_none_or event.summary
          (λ summary. not (publishable_agent_summary_for_project summary event.project))

unfoldable pub is_startup_context : AgentEvent → Bool
is_startup_context event = any_eq event.tags (chars "startup-context")

-- Opens the definitions of this module in a run.
unfoldable pub run_scores : Unit {0}
unfolding kind_outcome outcome_label has_command_burst has_command_topic has_publishable_summary
    story_score context_score should_retain_open_window is_open_turn_window settles should_settle
    never_published is_never_publish_event is_startup_context
run_scores = tt
