-- ===== src/Story/Quality.antt =====
-- `is_low_quality_story`: the copy that is too generic or mechanical to publish.
use agent_feed.Prelude.{
  Bool, false, if◌then◌else◌, is_none, is_none_or, is_some_and, leb, list_eq, ltb, nat_eq, not,
  option_eq, pair_eq, true, ◌&&◌, ◌++◌, ◌==◌, ◌||◌,
}
use agent_feed.Story.Copy.{display_project_label}
use agent_feed.Story.Keys.{is_family, is_turn}
use agent_feed.Story.Scores.{has_command_burst, has_publishable_summary}
use agent_feed.Story.Summaries.{
  meaningful_summary, normalized_story_text, summary_is_operator_chatter,
  summary_mentions_public_project,
}
use agent_feed.Story.Types.{StoryCounters, StoryFamily, StoryWindow}
use agent_feed.Text.{Str, chars, contains, to_ascii_lowercase}

-- No counter but the one of failed tools.
unfoldable pub no_counts : StoryCounters → Bool
no_counts counters =
    counters.files_changed == 0
    && counters.tests_failed == 0
    && counters.tests_passed == 0
    && counters.permissions == 0
    && counters.mcp_failures == 0

-- `latest_summary.is_none_or(|summary| !meaningful_summary(summary))`
unfoldable pub lacks_meaning : StoryWindow → Bool
lacks_meaning window =
    is_none_or window.signals.latest_summary (λ summary. not (meaningful_summary summary))

-- The counters show work on files, tests or tools, with no permission or mcp event.
unfoldable pub has_mechanics : StoryCounters → Bool
has_mechanics counters =
    counters.permissions == 0
    && counters.mcp_failures == 0
    && (ltb 0 counters.files_changed
        || ltb 0 counters.tests_failed
        || ltb 0 counters.tests_passed
        || ltb 0 counters.tool_failures)

unfoldable pub names_tool_failure : Str → Bool
names_tool_failure combined =
    contains combined (chars "shell command")
    || contains combined (chars "command failed")
    || contains combined (chars "tool failures")

-- A turn that says no more than that it ended.
unfoldable pub is_terminal_copy : Str → Str → Str → Bool
is_terminal_copy combined headline deck =
    (contains combined (chars "turn completed") || contains combined (chars "turn failed"))
    && (contains headline (chars "completed ")
        || contains headline (chars "completed local")
        || contains headline (chars "completed repos")
        || contains deck (chars "turn completed")
        || contains deck (chars "turn failed"))

-- A summary that is chatter, whatever the family.
unfoldable pub is_chatter : StoryWindow → Bool
is_chatter window =
    is_some_and window.signals.latest_summary
      (λ summary. summary_is_operator_chatter (normalized_story_text summary))

-- A turn of no named project, whose copy names none, below the urgent score.
unfoldable pub is_unplaced_turn : StoryWindow → Str → Bool
is_unplaced_turn window combined =
    is_turn window.key.family
    && is_none (display_project_label window.key.project_hash)
    && not (summary_mentions_public_project combined)
    && ltb window.signals.highest_score 90

-- The families that need a meaningful summary.
unfoldable pub needs_meaning : StoryWindow → Bool
needs_meaning window =
    let counters = window.counters in
    is_family window.key.family StoryFamily.file_change && lacks_meaning window
    || is_family window.key.family StoryFamily.test
      && counters.tests_failed == 0
      && lacks_meaning window
    || is_family window.key.family StoryFamily.plan && lacks_meaning window

-- An incident of failed tools alone, told as such.
unfoldable pub is_tool_incident : StoryWindow → Str → Bool
is_tool_incident window combined =
    is_family window.key.family StoryFamily.incident
    && ltb 0 window.counters.tool_failures
    && no_counts window.counters
    && names_tool_failure combined

-- A turn or a command burst whose summary cannot be published.
unfoldable pub is_mechanical_turn : StoryWindow → Str → Str → Str → Bool
is_mechanical_turn window combined headline deck =
    let counters = window.counters in
    let turn = is_turn window.key.family in
    let unpublishable = not (has_publishable_summary window) in
    turn && ltb 0 counters.tool_failures && no_counts counters && unpublishable
    || turn && has_mechanics counters && unpublishable
    || turn && counters.tool_failures == 0 && no_counts counters && unpublishable
    || has_command_burst window && unpublishable
    || turn && is_terminal_copy combined headline deck && unpublishable

unfoldable pub is_low_quality_story : StoryWindow → Str → Str → Bool
is_low_quality_story window headline deck =
    let combined = to_ascii_lowercase headline ++ chars " " ++ to_ascii_lowercase deck in
    if is_chatter window
    then true
    else if is_unplaced_turn window combined
    then true
    else if needs_meaning window
    then true
    else if is_tool_incident window combined
    then true
    else if is_mechanical_turn window combined headline deck
    then true
    else if leb 90 window.signals.highest_score
    then false
    else contains combined (chars "activity settled")
      || contains combined (chars "hit [project] command")

-- Opens the definitions of this module in a run.
unfoldable pub run_quality : Unit {0}
unfolding no_counts lacks_meaning has_mechanics names_tool_failure is_terminal_copy is_chatter
    is_unplaced_turn needs_meaning is_tool_incident is_mechanical_turn is_low_quality_story
run_quality = tt
