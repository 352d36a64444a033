-- ===== src/Core/Names.antt =====
-- The wire names of the event kinds.
use agent_feed.Core.{EventKind, kind_as_str, kind_parse}
use agent_feed.Prelude.{list_beq, refl, ◌≡◌}

-- The name of every event kind parses back to the kind.
pub kind_parse-kind_as_str : (kind : EventKind) → kind_parse (kind_as_str kind) ≡ kind
unfolding kind_parse kind_as_str list_beq
kind_parse-kind_as_str EventKind.session_start = refl
kind_parse-kind_as_str EventKind.session_end = refl
kind_parse-kind_as_str EventKind.turn_start = refl
kind_parse-kind_as_str EventKind.turn_complete = refl
kind_parse-kind_as_str EventKind.turn_fail = refl
kind_parse-kind_as_str EventKind.plan_update = refl
kind_parse-kind_as_str EventKind.agent_message = refl
kind_parse-kind_as_str EventKind.tool_start = refl
kind_parse-kind_as_str EventKind.tool_complete = refl
kind_parse-kind_as_str EventKind.tool_fail = refl
kind_parse-kind_as_str EventKind.permission_request = refl
kind_parse-kind_as_str EventKind.permission_denied = refl
kind_parse-kind_as_str EventKind.file_changed = refl
kind_parse-kind_as_str EventKind.diff_created = refl
kind_parse-kind_as_str EventKind.command_exec = refl
kind_parse-kind_as_str EventKind.test_pass = refl
kind_parse-kind_as_str EventKind.test_fail = refl
kind_parse-kind_as_str EventKind.mcp_call = refl
kind_parse-kind_as_str EventKind.mcp_fail = refl
kind_parse-kind_as_str EventKind.web_search = refl
kind_parse-kind_as_str EventKind.summary_created = refl
kind_parse-kind_as_str EventKind.error = refl
kind_parse-kind_as_str EventKind.adapter_health = refl
