-- ===== src/Story/Window.antt =====
-- `StoryWindow`: what a window has gathered, and how it observes an event.
pub mod Invariant
use agent_feed.Core.{AgentEvent, EventKind, Severity, Time}
use agent_feed.Highlight.{score_event}
use agent_feed.Prelude.{
  Bool, List, Option, String, [], and_then, any_eq, false, head?, if◌then◌else◌, is_empty, length,
  list_eq, ltb, max, nat_eq, none, option_eq, or_else, pair_eq, some, take, true, unwrap_or,
  wrapping_add, ℕ, ◌++◌, ◌==◌, ◌||◌, ◌∷◌,
}
use agent_feed.Story.Summaries.{summary_is_redundant}
use agent_feed.Story.Types.{StoryCounters, StoryKey, StorySignals, StoryWindow, StoryWindowState}
use agent_feed.Text.{Str, chars, contains, split_whitespace, to_ascii_lowercase}

unfoldable pub severity_rank : Severity → ℕ
severity_rank Severity.debug = 0
severity_rank Severity.info = 1
severity_rank Severity.notice = 2
severity_rank Severity.warning = 3
severity_rank Severity.critical = 4

abbrev pub default_counters : StoryCounters
default_counters = record {
  events = 0;
  commands = 0;
  files_changed = 0;
  tool_failures = 0;
  tests_passed = 0;
  tests_failed = 0;
  permissions = 0;
  mcp_failures = 0;
}

abbrev pub default_signals : StorySignals
default_signals = record {
  highest_score = 0;
  highest_severity = Severity.info;
  latest_kind = none;
  latest_title = none;
  latest_summary = none;
  latest_tool = none;
  latest_command_class = none;
  command_topics = [];
  files = [];
}

unfoldable pub new_window : StoryKey → Time → StoryWindow
new_window key now = record {
  key = key;
  opened_at = now;
  last_event_at = now;
  events = [];
  counters = default_counters;
  signals = default_signals;
  state = StoryWindowState.open_window;
  publishable_events = 0;
}

unfoldable pub command_class : Str → Option Str
command_class command =
    and_then (head? (split_whitespace command))
      (λ first. if is_empty first then none else some (first ++ chars " command"))

unfoldable pub command_topic : Str → Option Str
command_topic command =
    let lowered = to_ascii_lowercase command in
    let first = unwrap_or (head? (split_whitespace lowered)) [] in
    let has = λ (needle : String). contains lowered (chars needle) in
    let starts = λ (word : String). first == chars word in
    if is_empty first
    then none
    else if has "gh run" || has "github" || has "mcp github" || has "workflow" || has "ci"
    then some (chars "ci status")
    else if starts "cargo"
        || starts "just"
        || starts "pytest"
        || starts "npm"
        || starts "pnpm"
        || starts "yarn"
        || has " test"
    then some (chars "verification")
    else if starts "rg"
        || starts "sed"
        || starts "nl"
        || starts "cat"
        || starts "find"
        || has "grep"
    then some (chars "code inspection")
    else if starts "git"
    then some (chars "repository state")
    else if starts "curl" || starts "wget"
    then some (chars "remote service check")
    else some (chars "shell checks")

-- `if !list.iter().any(|existing| existing == item) { list.push(item) }`
unfoldable pub push_new : List Str → Str → List Str
push_new items item = if any_eq items item then items else items ++ item ∷ []

unfoldable pub push_all_new : List Str → List Str → List Str
push_all_new items [] = items
push_all_new items (item ∷ more) = push_all_new (push_new items item) more

-- The counter that an event's kind advances.
unfoldable pub count_kind : EventKind → List Str → StoryCounters → StoryCounters
count_kind EventKind.command_exec files c = record c { commands = wrapping_add c.commands 1 }
count_kind EventKind.tool_complete files c = record c { commands = wrapping_add c.commands 1 }
count_kind EventKind.tool_fail files c = record c { tool_failures = wrapping_add c.tool_failures 1 }
count_kind EventKind.file_changed files c = record c {
  files_changed = wrapping_add c.files_changed (max (length files) 1);
}
count_kind EventKind.diff_created files c = record c {
  files_changed = wrapping_add c.files_changed (max (length files) 1);
}
count_kind EventKind.test_pass files c = record c { tests_passed = wrapping_add c.tests_passed 1 }
count_kind EventKind.test_fail files c = record c { tests_failed = wrapping_add c.tests_failed 1 }
count_kind EventKind.permission_request files c = record c {
  permissions = wrapping_add c.permissions 1;
}
count_kind EventKind.permission_denied files c = record c {
  permissions = wrapping_add c.permissions 1;
}
count_kind EventKind.mcp_fail files c = record c { mcp_failures = wrapping_add c.mcp_failures 1 }
count_kind _ files c = c

-- The time of an event: `event.occurred_at.unwrap_or(event.received_at)`.
abbrev pub event_time : AgentEvent → Time
event_time event = unwrap_or event.occurred_at event.received_at

-- The latest summary that is not redundant.
unfoldable pub kept_summary : Option Str → Option Str → Option Str
kept_summary (some summary) old = if summary_is_redundant summary then old else some summary
kept_summary none old = old

unfoldable pub kept_topics : Option Str → List Str → List Str
kept_topics (some topic) topics = push_new topics topic
kept_topics none topics = topics

unfoldable pub observed_signals : StorySignals → AgentEvent → StorySignals
observed_signals s event = record {
  highest_score = max s.highest_score (score_event event);
  highest_severity =
      if ltb (severity_rank s.highest_severity) (severity_rank event.severity)
      then event.severity
      else s.highest_severity;
  latest_kind = some event.kind;
  latest_title = some event.title;
  latest_summary = kept_summary event.summary s.latest_summary;
  latest_tool = event.tool;
  latest_command_class = or_else (and_then event.command command_class) s.latest_command_class;
  command_topics = kept_topics (and_then event.command command_topic) s.command_topics;
  files = push_all_new s.files (take 8 event.files);
}

unfoldable pub observe_with_publishable : StoryWindow → AgentEvent → Bool → StoryWindow
observe_with_publishable w event publishable = record w {
  last_event_at = event_time event;
  events = w.events ++ event.id ∷ [];
  counters =
      count_kind event.kind event.files
        (record w.counters { events = wrapping_add w.counters.events 1 });
  signals = observed_signals w.signals event;
  publishable_events =
      if publishable then wrapping_add w.publishable_events 1 else w.publishable_events;
}

unfoldable pub observe : StoryWindow → AgentEvent → StoryWindow
observe w event = observe_with_publishable w event true

unfoldable pub observe_context : StoryWindow → AgentEvent → StoryWindow
observe_context w event = observe_with_publishable w event false

-- Opens the definitions of this module in a run.
unfoldable pub run_window : Unit {0}
unfolding severity_rank new_window command_class command_topic push_new push_all_new count_kind
    kept_summary kept_topics observed_signals observe_with_publishable observe observe_context
run_window = tt
