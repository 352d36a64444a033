-- ===== src/Core/Event.antt =====
-- `AgentEvent`. A time is the number of nanoseconds since the Unix epoch; times before it are
-- left out. An identifier and the present time, which `AgentEvent::new` draws from a global
-- counter and the clock, are arguments.
use agent_feed.Core.Kinds.{EventKind, PrivacyClass, Severity, SourceKind, source_as_str}
use agent_feed.Prelude.{List, Option, [], none, ℕ}
use agent_feed.Text.{Str, chars}

abbrev pub Time : Type 0
Time = ℕ

pub record AgentEvent : Type 0 where
  pub id : Str
  pub received_at : Time
  pub occurred_at : Option Time
  pub source : SourceKind
  pub agent : Str
  pub adapter : Str
  pub session_id : Option Str
  pub turn_id : Option Str
  pub item_id : Option Str
  pub project : Option Str
  pub cwd : Option Str
  pub kind : EventKind
  pub severity : Severity
  pub title : Str
  pub summary : Option Str
  pub tool : Option Str
  pub command : Option Str
  pub uri : Option Str
  pub files : List Str
  pub tags : List Str
  pub score_hint : Option ℕ
  pub privacy : PrivacyClass

unfoldable pub new_event : Str → Time → SourceKind → EventKind → Str → AgentEvent
unfolding source_as_str
new_event id now source kind title = record {
  id = id;
  received_at = now;
  occurred_at = none;
  source = source;
  agent = source_as_str source;
  adapter = chars "generic";
  session_id = none;
  turn_id = none;
  item_id = none;
  project = none;
  cwd = none;
  kind = kind;
  severity = Severity.info;
  title = title;
  summary = none;
  tool = none;
  command = none;
  uri = none;
  files = [];
  tags = [];
  score_hint = none;
  privacy = PrivacyClass.redacted;
}
