-- ===== src/Redaction.antt =====
-- crates/agent_feed_redaction/src/lib.rs: what is taken out of an event before it is kept.
pub mod Laws
mod Tests
use agent_feed.Core.{AgentEvent, PrivacyClass}
use agent_feed.Prelude.{
  Bool, List, Option, [], and_then, any, false, filter_map, if◌then◌else◌, is_empty, list_eq, map,
  map_option, map_or, nat_eq, none, option_eq, pair_eq, some, take, true, ◌&&◌, ◌++◌, ◌==◌, ◌||◌,
  ◌∷◌,
}
use agent_feed.Proto.Signing.{Hashes, hex_lower}
use agent_feed.Text.{
  Str, chars, contains, drop_while, ends_with, replace_text, split_once, starts_with, strip_prefix,
  to_ascii_lowercase, utf8,
}

pub data PrivacyMode : Type 0 where
  aggressive balanced debug : PrivacyMode

pub record PrivacyConfig : Type 0 where
  pub mode : PrivacyMode
  pub hash_paths : Bool
  pub mask_home : Bool
  pub show_prompts : Bool
  pub show_command_output : Bool
  pub show_diffs : Bool
  pub redact_patterns : List Str
  pub redact_paths : List Str

abbrev pub default_patterns : List Str
default_patterns =
    chars "sk-[A-Za-z0-9_-]+"
    ∷ chars "ghp_[A-Za-z0-9_]+"
    ∷ chars "github_pat_[A-Za-z0-9_]+"
    ∷ chars "AKIA[0-9A-Z]{16}"
    ∷ chars "ASIA[0-9A-Z]{16}"
    ∷ chars "(?i)bearer\\s+[A-Za-z0-9._~+/=-]{20,}"
    ∷ chars "eyJ[A-Za-z0-9_-]+\\.[A-Za-z0-9_-]+\\.[A-Za-z0-9_-]+"
    ∷ chars "(?s)-----BEGIN [A-Z ]*PRIVATE KEY-----.*?-----END [A-Z ]*PRIVATE KEY-----"
    ∷ chars "(?i)(password|passwd|secret|token|api[_-]?key)\\s*=\\s*[^\\s]+"
    ∷ []

unfoldable pub default_privacy : PrivacyConfig
default_privacy = record {
  mode = PrivacyMode.aggressive;
  hash_paths = true;
  mask_home = true;
  show_prompts = false;
  show_command_output = false;
  show_diffs = false;
  redact_patterns = default_patterns;
  redact_paths = chars ".env" ∷ chars ".env." ∷ chars "secrets/" ∷ chars ".pem" ∷ chars ".key" ∷ [];
}

-- A pattern that compiles is what `Regex::replace_all` does of it: the text, the replacement.
abbrev pub Pattern : Type 0
Pattern = Str → Str → Str

pub record Redactor : Type 0 where
  pub config : PrivacyConfig
  pub home : Option Str
  pub patterns : List Pattern

-- `Regex::new` and the variable HOME are parameters.
unfoldable pub new_redactor : (Str → Option Pattern) → Option Str → PrivacyConfig → Redactor
new_redactor compile home_var config = record {
  config = config;
  home = and_then home_var (λ home. if is_empty home then none else some home);
  patterns = filter_map compile config.redact_patterns;
}

unfoldable pub replace_each : List Pattern → Str → Str
replace_each [] output = output
replace_each (pattern ∷ patterns) output =
    replace_each patterns (pattern output (chars "[redacted]"))

-- The home directory, where it is to be masked.
unfoldable pub masked_home : Redactor → Option Str
masked_home redactor = if redactor.config.mask_home then redactor.home else none

unfoldable pub redact_text : Redactor → Str → Str
redact_text redactor input =
    let output = replace_each redactor.patterns input in
    map_or (masked_home redactor) output (λ home. replace_text home (chars "~") output)

unfoldable pub redact_uri : Redactor → Str → Str
redact_uri redactor input =
    redact_text redactor (map_or (split_once b'?' input) input (λ (parts : Str × Str). parts.0))

unfoldable pub is_sensitive_path : Redactor → Str → Bool
is_sensitive_path redactor input =
    let lowered = to_ascii_lowercase input in
    any
      (λ pattern.
        if ends_with pattern (chars "/")
        then contains lowered pattern
        else if starts_with pattern (chars ".")
        then ends_with lowered pattern || contains lowered pattern
        else contains lowered pattern)
      redactor.config.redact_paths

module _ ⦃h : Hashes⦄ where
  unfoldable pub short_hash : Str → Str
  short_hash input = take 12 (hex_lower (h.sha256 (utf8 input)))

  unfoldable pub redact_path : Redactor → Str → Str
  redact_path redactor input =
      let hash_paths = redactor.config.hash_paths in
      let unmasked =
        if hash_paths && starts_with input (chars "/")
        then chars "/#" ++ short_hash input
        else input in
      if is_sensitive_path redactor input
      then chars "[sensitive-path]"
      else map_or (and_then (masked_home redactor) (strip_prefix input)) unmasked λ rest.
        let rest = drop_while (λ c. c == b'/') rest in
        if hash_paths then chars "~/#" ++ short_hash rest else chars "~/" ++ rest

  unfoldable pub redact_event : Redactor → AgentEvent → AgentEvent
  redact_event redactor event =
      let text = redact_text redactor in
      record event {
        title = text event.title;
        summary = map_option text event.summary;
        project = map_option text event.project;
        session_id = map_option text event.session_id;
        turn_id = map_option text event.turn_id;
        item_id = map_option text event.item_id;
        tool = map_option text event.tool;
        command = map_option text event.command;
        uri = map_option (redact_uri redactor) event.uri;
        cwd = map_option (redact_path redactor) event.cwd;
        files = map (redact_path redactor) event.files;
        tags = map text event.tags;
        privacy = PrivacyClass.redacted;
      }
