-- ===== src/Core/Kinds.antt =====
-- The enums of the core crate.
use agent_feed.Prelude.{
  Bool, false, if◌then◌else◌, list_eq, nat_eq, option_eq, pair_eq, true, ℕ, ◌==◌,
}
use agent_feed.Text.{Str, chars}

pub data SourceKind : Type 0 where
  codex claude mcp otel shell generic : SourceKind

unfoldable pub source_as_str : SourceKind → Str
source_as_str SourceKind.codex = chars "codex"
source_as_str SourceKind.claude = chars "claude"
source_as_str SourceKind.mcp = chars "mcp"
source_as_str SourceKind.otel = chars "otel"
source_as_str SourceKind.shell = chars "shell"
source_as_str SourceKind.generic = chars "generic"

-- In the order of the declaration, which `derive(PartialOrd)` follows.
pub data Severity : Type 0 where
  debug info notice warning critical : Severity

unfoldable pub score_bonus : Severity → ℕ
score_bonus Severity.debug = 0
score_bonus Severity.info = 4
score_bonus Severity.notice = 10
score_bonus Severity.warning = 25
score_bonus Severity.critical = 40

pub data EventKind : Type 0 where
  session_start : EventKind
  session_end : EventKind
  turn_start : EventKind
  turn_complete : EventKind
  turn_fail : EventKind
  plan_update : EventKind
  agent_message : EventKind
  tool_start : EventKind
  tool_complete : EventKind
  tool_fail : EventKind
  permission_request : EventKind
  permission_denied : EventKind
  file_changed : EventKind
  diff_created : EventKind
  command_exec : EventKind
  test_pass : EventKind
  test_fail : EventKind
  mcp_call : EventKind
  mcp_fail : EventKind
  web_search : EventKind
  summary_created : EventKind
  error : EventKind
  adapter_health : EventKind

-- The names on the wire.
unfoldable pub kind_as_str : EventKind → Str
kind_as_str EventKind.session_start = chars "session.start"
kind_as_str EventKind.session_end = chars "session.end"
kind_as_str EventKind.turn_start = chars "turn.start"
kind_as_str EventKind.turn_complete = chars "turn.complete"
kind_as_str EventKind.turn_fail = chars "turn.fail"
kind_as_str EventKind.plan_update = chars "plan.update"
kind_as_str EventKind.agent_message = chars "agent.message"
kind_as_str EventKind.tool_start = chars "tool.start"
kind_as_str EventKind.tool_complete = chars "tool.complete"
kind_as_str EventKind.tool_fail = chars "tool.fail"
kind_as_str EventKind.permission_request = chars "permission.request"
kind_as_str EventKind.permission_denied = chars "permission.denied"
kind_as_str EventKind.file_changed = chars "file.changed"
kind_as_str EventKind.diff_created = chars "diff.created"
kind_as_str EventKind.command_exec = chars "command.exec"
kind_as_str EventKind.test_pass = chars "test.pass"
kind_as_str EventKind.test_fail = chars "test.fail"
kind_as_str EventKind.mcp_call = chars "mcp.call"
kind_as_str EventKind.mcp_fail = chars "mcp.fail"
kind_as_str EventKind.web_search = chars "web.search"
kind_as_str EventKind.summary_created = chars "summary.created"
kind_as_str EventKind.error = chars "error"
kind_as_str EventKind.adapter_health = chars "adapter.health"

unfoldable pub kind_parse : Str → EventKind
kind_parse value =
    if value == chars "session.start"
    then EventKind.session_start
    else if value == chars "session.end"
    then EventKind.session_end
    else if value == chars "turn.start"
    then EventKind.turn_start
    else if value == chars "turn.complete"
    then EventKind.turn_complete
    else if value == chars "turn.fail"
    then EventKind.turn_fail
    else if value == chars "plan.update"
    then EventKind.plan_update
    else if value == chars "agent.message"
    then EventKind.agent_message
    else if value == chars "tool.start"
    then EventKind.tool_start
    else if value == chars "tool.complete"
    then EventKind.tool_complete
    else if value == chars "tool.fail"
    then EventKind.tool_fail
    else if value == chars "permission.request"
    then EventKind.permission_request
    else if value == chars "permission.denied"
    then EventKind.permission_denied
    else if value == chars "file.changed"
    then EventKind.file_changed
    else if value == chars "diff.created"
    then EventKind.diff_created
    else if value == chars "command.exec"
    then EventKind.command_exec
    else if value == chars "test.pass"
    then EventKind.test_pass
    else if value == chars "test.fail"
    then EventKind.test_fail
    else if value == chars "mcp.call"
    then EventKind.mcp_call
    else if value == chars "mcp.fail"
    then EventKind.mcp_fail
    else if value == chars "web.search"
    then EventKind.web_search
    else if value == chars "summary.created"
    then EventKind.summary_created
    else if value == chars "adapter.health"
    then EventKind.adapter_health
    else EventKind.error

unfoldable pub is_urgent : EventKind → Bool
is_urgent EventKind.permission_request = true
is_urgent EventKind.permission_denied = true
is_urgent EventKind.turn_fail = true
is_urgent EventKind.tool_fail = true
is_urgent EventKind.test_fail = true
is_urgent EventKind.mcp_fail = true
is_urgent EventKind.error = true
is_urgent _ = false

pub data PrivacyClass : Type 0 where
  redacted display_safe sensitive quarantined : PrivacyClass

pub data BulletinMode : Type 0 where
  breaking dispatch diff_atlas command_desk mcp_wire recap quiet : BulletinMode

pub data VisualKind : Type 0 where
  stage wall ambient incident debug : VisualKind
