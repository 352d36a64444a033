-- ===== src/Summarize/Config.antt =====
-- The configuration of the summaries, as far as the publish decision and the budget read it.
use agent_feed.Prelude.{Bool, List, Option, [], none, true, ℕ}
use agent_feed.Story.Types.{CompiledStory, StoryFamily}
use agent_feed.Summarize.Types.{FeedSummary, PublishAction}
use agent_feed.Text.{Str, chars}

-- The similarities and the score are u8.
pub record PublishDecisionConfig : Type 0 where
  pub enabled : Bool
  pub allow_processor_skip : Bool
  pub recent_window : ℕ
  pub max_headline_similarity : ℕ
  pub max_deck_similarity_when_headline_matches : ℕ
  pub severe_score_bypass : ℕ

unfoldable pub default_publish : PublishDecisionConfig
default_publish = record {
  enabled = true;
  allow_processor_skip = true;
  recent_window = 24;
  max_headline_similarity = 88;
  max_deck_similarity_when_headline_matches = 82;
  severe_score_bypass = 90;
}

pub record SummaryBudget : Type 0 where
  pub max_headline_chars : ℕ
  pub max_deck_chars : ℕ
  pub max_lower_third_chars : ℕ
  pub max_chip_chars : ℕ
  pub max_chips : ℕ
  pub max_evidence_items : ℕ
  pub max_capsule_chars : ℕ
  pub max_feed_rollup_stories : ℕ

unfoldable pub default_budget : SummaryBudget
default_budget = record {
  max_headline_chars = 96;
  max_deck_chars = 220;
  max_lower_third_chars = 120;
  max_chip_chars = 28;
  max_chips = 5;
  max_evidence_items = 8;
  max_capsule_chars = 720;
  max_feed_rollup_stories = 256;
}

pub data FeedSummaryMode : Type 0 where
  per_story feed_rollup : FeedSummaryMode

pub data SummaryError : Type 0 where
  guardrail_rejected : Str → SummaryError
  processor : Str → SummaryError
  utf8_error : SummaryError
  json : SummaryError

pub record RecentSummary : Type 0 where
  pub headline : Str
  pub deck : Str
  pub story_family : StoryFamily
  pub score : ℕ

unfoldable pub recent_of : FeedSummary → RecentSummary
recent_of summary = record {
  headline = summary.headline;
  deck = summary.deck;
  story_family = summary.story_family;
  score = summary.score;
}

pub record SummaryRequest : Type 0 where
  pub feed_id : Str
  pub mode : FeedSummaryMode
  pub stories : List CompiledStory
  pub recent_summaries : List RecentSummary
  pub prompt_style : Option Str
  pub max_prompt_chars : Option ℕ
  pub prompt_extra_instructions : List Str
  pub memory_extra_instructions : List Str
  pub branch : Option Str
  pub session_hint : Option Str

unfoldable pub new_request : Str → FeedSummaryMode → List CompiledStory → SummaryRequest
new_request feed_id mode stories = record {
  feed_id = feed_id;
  mode = mode;
  stories = stories;
  recent_summaries = [];
  prompt_style = none;
  max_prompt_chars = none;
  prompt_extra_instructions = [];
  memory_extra_instructions = [];
  branch = none;
  session_hint = none;
}

unfoldable pub publish_action_as_str : PublishAction → Str
publish_action_as_str PublishAction.publish = chars "publish"
publish_action_as_str PublishAction.skip_duplicate = chars "skip_duplicate"
publish_action_as_str PublishAction.skip_processor = chars "skip_processor"
