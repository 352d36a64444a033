-- ===== src/Story/Types.antt =====
-- The data of the story compiler.
use agent_feed.Core.{EventKind, PrivacyClass, Severity, Time}
use agent_feed.Prelude.{List, Option, [], none, ℕ}
use agent_feed.Text.{Str}

pub data StoryFamily : Type 0 where
  turn plan test permission command file_change mcp incident idle_recap : StoryFamily

pub record StoryKey : Type 0 where
  pub feed_id : Option Str
  pub agent : Str
  pub project_hash : Option Str
  pub session_id : Option Str
  pub turn_id : Option Str
  pub family : StoryFamily

pub data StoryWindowState : Type 0 where
  open_window settled : StoryWindowState

pub record StoryCounters : Type 0 where
  pub events : ℕ
  pub commands : ℕ
  pub files_changed : ℕ
  pub tool_failures : ℕ
  pub tests_passed : ℕ
  pub tests_failed : ℕ
  pub permissions : ℕ
  pub mcp_failures : ℕ

pub record StorySignals : Type 0 where
  pub highest_score : ℕ
  pub highest_severity : Severity
  pub latest_kind : Option EventKind
  pub latest_title : Option Str
  pub latest_summary : Option Str
  pub latest_tool : Option Str
  pub latest_command_class : Option Str
  pub command_topics : List Str
  pub files : List Str

pub record StoryWindow : Type 0 where
  pub key : StoryKey
  pub opened_at : Time
  pub last_event_at : Time
  pub events : List Str
  pub counters : StoryCounters
  pub signals : StorySignals
  pub state : StoryWindowState
  pub publishable_events : ℕ

pub record CompiledStory : Type 0 where
  pub key : StoryKey
  pub created_at : Time
  pub family : StoryFamily
  pub agent : Str
  pub project : Option Str
  pub headline : Str
  pub deck : Str
  pub lower_third : Str
  pub chips : List Str
  pub severity : Severity
  pub score : ℕ
  pub context_score : ℕ
  pub privacy : PrivacyClass
  pub evidence_event_ids : List Str

pub data StoryDecisionAction : Type 0 where
  waiting retained rejected deduped published : StoryDecisionAction

pub record StoryDecision : Type 0 where
  pub decided_at : Time
  pub action : StoryDecisionAction
  pub reason : Str
  pub agent : Str
  pub project : Option Str
  pub session_id : Option Str
  pub turn_id : Option Str
  pub family : StoryFamily
  pub score : ℕ
  pub context_score : ℕ

pub record StoryCompilerDiagnostics : Type 0 where
  pub open_windows : ℕ
  pub retained_windows : ℕ
  pub settled_windows : ℕ
  pub published_stories : ℕ
  pub rejected_stories : ℕ
  pub deduped_stories : ℕ
  pub last_decision : Option StoryDecision
  pub recent_decisions : List StoryDecision

pub record StoryCompilerConfig : Type 0 where
  pub min_score : ℕ
  pub min_context_score : ℕ
  pub per_agent_cooldown_events : ℕ
  pub dedupe_window_events : ℕ

abbrev pub default_min_score : ℕ
default_min_score = 65

abbrev pub default_config : StoryCompilerConfig
default_config = record {
  min_score = default_min_score;
  min_context_score = 70;
  per_agent_cooldown_events = 0;
  dedupe_window_events = 32;
}

abbrev pub default_diagnostics : StoryCompilerDiagnostics
default_diagnostics = record {
  open_windows = 0;
  retained_windows = 0;
  settled_windows = 0;
  published_stories = 0;
  rejected_stories = 0;
  deduped_stories = 0;
  last_decision = none;
  recent_decisions = [];
}
