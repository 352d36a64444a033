-- ===== src/Highlight.antt =====
-- crates/agent_feed_highlight/src/lib.rs: the score of an event, and the bulletin made of one.
pub mod Laws
use agent_feed.Core.{
  AgentEvent, Bulletin, BulletinMode, EventKind, PrivacyClass, Time, VisualKind, is_urgent,
  kind_as_str, score_bonus,
}
use agent_feed.Prelude.{
  List, [], as_u8, drop, if◌then◌else◌, is_empty, length, min, none, saturating_add, saturating_mul,
  some, take, unwrap_or, ℕ, ◌++◌, ◌∷◌,
}
use agent_feed.Text.{Str, chars, decimal, join, split_whitespace}

unfoldable pub base_score : EventKind → ℕ
base_score EventKind.permission_denied = 95
base_score EventKind.permission_request = 88
base_score EventKind.test_fail = 90
base_score EventKind.turn_fail = 88
base_score EventKind.tool_fail = 82
base_score EventKind.mcp_fail = 72
base_score EventKind.turn_complete = 72
base_score EventKind.plan_update = 68
base_score EventKind.file_changed = 62
base_score EventKind.diff_created = 62
base_score EventKind.test_pass = 60
base_score EventKind.tool_complete = 42
base_score EventKind.command_exec = 42
base_score EventKind.adapter_health = 36
base_score EventKind.session_start = 34
base_score EventKind.session_end = 34
base_score EventKind.agent_message = 30
base_score EventKind.summary_created = 30
base_score EventKind.tool_start = 20
base_score EventKind.turn_start = 20
base_score EventKind.mcp_call = 20
base_score EventKind.web_search = 20
base_score EventKind.error = 70

-- `(event.files.len() as u8).saturating_mul(3).min(12)`: the length loses its high bits first.
unfoldable pub file_bonus : List Str → ℕ
file_bonus files = min (saturating_mul (as_u8 (length files)) 3) 12

unfoldable pub score_event : AgentEvent → ℕ
score_event event = elim event.score_hint [
  | some score_hint ↦ min score_hint 100
  | none ↦
      min
        (saturating_add (saturating_add (base_score event.kind) (score_bonus event.severity))
          (file_bonus event.files))
        100
]

unfoldable pub mode_for : EventKind → BulletinMode
mode_for EventKind.permission_denied = BulletinMode.breaking
mode_for EventKind.permission_request = BulletinMode.breaking
mode_for EventKind.test_fail = BulletinMode.breaking
mode_for EventKind.tool_fail = BulletinMode.breaking
mode_for EventKind.turn_fail = BulletinMode.breaking
mode_for EventKind.mcp_fail = BulletinMode.breaking
mode_for EventKind.error = BulletinMode.breaking
mode_for EventKind.file_changed = BulletinMode.diff_atlas
mode_for EventKind.diff_created = BulletinMode.diff_atlas
mode_for EventKind.command_exec = BulletinMode.command_desk
mode_for EventKind.tool_start = BulletinMode.command_desk
mode_for EventKind.tool_complete = BulletinMode.command_desk
mode_for EventKind.mcp_call = BulletinMode.mcp_wire
mode_for EventKind.summary_created = BulletinMode.recap
mode_for _ = BulletinMode.dispatch

unfoldable pub eyebrow : AgentEvent → Str
eyebrow event =
    event.agent
    ++ chars " / "
    ++ unwrap_or event.project (chars "local")
    ++ chars " / "
    ++ kind_as_str event.kind

unfoldable pub deck_fallback : EventKind → Str
deck_fallback EventKind.turn_complete = chars "turn completed with display-safe activity."
deck_fallback EventKind.turn_fail = chars "turn failed. details were reduced before display."
deck_fallback EventKind.permission_request =
    chars "permission requested. policy boundary is visible."
deck_fallback EventKind.permission_denied = chars "permission denied. risky action did not proceed."
deck_fallback EventKind.test_fail = chars "test signal failed after agent activity."
deck_fallback EventKind.test_pass = chars "test signal passed after agent activity."
deck_fallback EventKind.file_changed =
    chars "changed files were detected without showing raw diffs."
deck_fallback _ = chars "agent activity was reduced to a safe bulletin."

unfoldable pub lower_third : AgentEvent → ℕ → Str
lower_third event priority =
    let tail = (chars "score " ++ decimal priority) ∷ chars "redacted" ∷ [] in
    let head = event.agent ∷ unwrap_or event.project (chars "local") ∷ [] in
    let parts =
      if is_empty event.files
      then head ++ tail
      else head ++ (decimal (length event.files) ++ chars " files") ∷ tail in
    join parts (chars " · ")

unfoldable pub event_chips : AgentEvent → ℕ → List Str
event_chips event priority =
    let rest =
      kind_as_str event.kind ∷ (chars "score " ++ decimal priority) ∷ chars "redacted" ∷ [] in
    let labels : List Str = elim event.project [
      | some project ↦ event.agent ∷ project ∷ rest
      | none ↦ event.agent ∷ rest
    ] in
    take 5 labels

unfoldable pub event_ticker : AgentEvent → List Str
event_ticker event =
    let tool : List Str = elim event.tool [
      | some tool ↦ (event.agent ++ chars " used " ++ tool) ∷ []
      | none ↦ []
    ] in
    let files =
      if is_empty event.files
      then []
      else (event.agent ++ chars " changed " ++ decimal (length event.files) ++ chars " files")
        ∷ [] in
    let urgent =
      if is_urgent event.kind
      then (kind_as_str event.kind ++ chars " needs attention") ∷ []
      else [] in
    tool ++ files ++ urgent

-- The first words, with dots if there are more.
unfoldable pub clamp_words : Str → ℕ → Str
clamp_words input max_words =
    let words = split_whitespace input in
    let output = join (take max_words words) (chars " ") in
    if is_empty (drop max_words words) then output else output ++ chars "..."

abbrev default_dwell_ms : ℕ
default_dwell_ms = 14000

abbrev urgent_dwell_ms : ℕ
urgent_dwell_ms = 20000

unfoldable pub bulletin_from_event : Str → Time → AgentEvent → Bulletin
bulletin_from_event id now event =
    let priority = score_event event in
    record {
      id = id;
      created_at = now;
      mode = mode_for event.kind;
      priority = priority;
      dwell_ms = if is_urgent event.kind then urgent_dwell_ms else default_dwell_ms;
      eyebrow = eyebrow event;
      headline = clamp_words event.title 14;
      deck = clamp_words (unwrap_or event.summary (deck_fallback event.kind)) 28;
      lower_third = lower_third event priority;
      chips = event_chips event priority;
      ticker = event_ticker event;
      image = none;
      visual = VisualKind.stage;
      privacy = PrivacyClass.redacted;
    }

-- Opens the definitions of this module in a run.
unfoldable pub run_highlight : Unit {0}
unfolding base_score file_bonus score_event mode_for eyebrow deck_fallback lower_third event_chips
    event_ticker clamp_words bulletin_from_event
run_highlight = tt
