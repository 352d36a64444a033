-- ===== src/Summarize/Types.antt =====
-- The records of the summaries.
use agent_feed.Core.{HeadlineImage, PrivacyClass, Severity}
use agent_feed.Prelude.{Bool, List, Option, ℕ}
use agent_feed.Story.Types.{StoryFamily}
use agent_feed.Text.{Str}

pub data GuardrailAction : Type 0 where
  mask : GuardrailAction
  reject : GuardrailAction

pub record GuardrailViolation : Type 0 where
  pub name : Str
  pub action : GuardrailAction

pub data PublishAction : Type 0 where
  publish : PublishAction
  skip_duplicate : PublishAction
  skip_processor : PublishAction

-- The similarities are u8, the version is a u32 and the counts are usize.
pub record SummaryMetadata : Type 0 where
  pub processor : Str
  pub policy : Str
  pub image_processor : Str
  pub publish_action : PublishAction
  pub publish_reason : Str
  pub headline_fingerprint : Str
  pub topic_fingerprint : Str
  pub state_fingerprint : Str
  pub impact_fingerprint : Str
  pub update_relation : Str
  pub max_headline_similarity : ℕ
  pub max_deck_similarity : ℕ
  pub guardrail_version : ℕ
  pub input_stories : ℕ
  pub output_chars : ℕ
  pub external_cost_allowed : Bool
  pub image_enabled : Bool
  pub violations : List GuardrailViolation

pub record FeedSummary : Type 0 where
  pub story_window : Str
  pub source_agent_kinds : List Str
  pub headline : Str
  pub deck : Str
  pub lower_third : Str
  pub chips : List Str
  pub image : Option HeadlineImage
  pub story_family : StoryFamily
  pub severity : Severity
  pub score : ℕ
  pub privacy_class : PrivacyClass
  pub evidence_event_ids : List Str
  pub metadata : SummaryMetadata
