-- ===== src/Redaction/Tests.antt =====
-- Runs of the redaction, with patterns that never compile.
use agent_feed.Core.{AgentEvent, EventKind, SourceKind, new_event}
use agent_feed.Prelude.{[], none, refl, some, take, ◌∷◌, ◌≡◌}
use agent_feed.Proto.Signing.{Hashes, hex_lower}
use agent_feed.Redaction.{
  Redactor, default_privacy, is_sensitive_path, masked_home, new_redactor, redact_event,
  redact_path, short_hash,
}
use agent_feed.Text.{
  chars, contains, drop_while, ends_with, lower_char, starts_with, strip_prefix, to_ascii_lowercase,
  utf8, utf8_char,
}

instance abbrev redaction_hashes : Hashes
redaction_hashes = record {
  sha256 = λ payload. take 8 payload;
  hmac_sha256 = λ secret payload. payload;
}

abbrev ada_redactor : Redactor
ada_redactor = new_redactor (λ pattern. none) (some (chars "/home/ada")) default_privacy

abbrev two_files : AgentEvent
two_files =
    record (new_event (chars "e") 1 SourceKind.codex EventKind.file_changed (chars "edit")) {
      files = chars "/home/ada/notes.md" ∷ chars "/srv/.env" ∷ [];
    }

redacted_files :
    (redact_event ada_redactor two_files).files
    ≡ chars "~/#6e6f7465732e" ∷ chars "[sensitive-path]" ∷ []
unfolding redact_event redact_path is_sensitive_path new_redactor default_privacy masked_home
    short_hash hex_lower utf8 utf8_char strip_prefix drop_while starts_with ends_with contains
    to_ascii_lowercase lower_char new_event
redacted_files = refl
