-- ===== src/Summarize/Quality.antt =====
-- The quality gate of a summary. Regular expressions (the crate regex) are a parameter.
pub mod Phrases
use agent_feed.Prelude.{Bool, any, if◌then◌else◌, is_empty, not, true, ◌&&◌, ◌++◌, ◌||◌}
use agent_feed.Story.Keys.{is_family}
use agent_feed.Story.Types.{CompiledStory, StoryFamily}
use agent_feed.Summarize.Quality.Phrases.{
  banned_phrases, low_signal_phrases, no_change_patterns, no_change_phrases, operational_phrases,
  outcome_context_words, test_status_phrases,
}
use agent_feed.Summarize.Similarity.{normalize_text}
use agent_feed.Summarize.Types.{FeedSummary}
use agent_feed.Text.{Str, chars, contains, contains_any, starts_with, trim}

-- `Regex::is_match` and `Regex::replace_all` of a pattern: the pattern, the text, the replacement.
pub record Regex : Type 0 where
  pub is_match : Str → Str → Bool
  pub replace_all : Str → Str → Str → Str

unfoldable pub has_public_outcome_context : Str → Bool
has_public_outcome_context normalized = contains_any normalized outcome_context_words

unfoldable pub is_operational_status_without_public_impact : Str → Bool
is_operational_status_without_public_impact normalized =
    contains_any normalized operational_phrases && not (has_public_outcome_context normalized)

unfoldable pub is_test_status_without_public_impact : Str → Bool
is_test_status_without_public_impact normalized =
    contains_any normalized test_status_phrases && not (has_public_outcome_context normalized)

unfoldable pub is_agent_activity_without_public_impact : Str → Str → Bool
is_agent_activity_without_public_impact headline combined =
    (starts_with headline (chars "codex ")
      || starts_with headline (chars "claude ")
      || starts_with headline (chars "agent "))
    && not (has_public_outcome_context combined)

module _ ⦃r : Regex⦄ where
  unfoldable pub is_no_change_public_copy : Str → Bool
  is_no_change_public_copy normalized =
      if any (λ pattern. r.is_match pattern normalized) no_change_patterns
      then true
      else contains_any normalized no_change_phrases

  unfoldable pub is_file_count_without_public_impact : Str → Bool
  is_file_count_without_public_impact normalized =
      r.is_match
        (chars "\\b(?:[0-9]+|one|two|three|four|five|six|seven|eight|nine|ten)\\s+"
          ++ chars "(?:changed\\s+)?files?\\b|\\bfiles?\\s+changed\\b")
        normalized
      && not (has_public_outcome_context normalized)

  unfoldable pub public_copy_has_banned_terms : Str → Bool
  public_copy_has_banned_terms normalized =
      contains_any normalized banned_phrases
      || r.is_match (chars "\\bm[0-9]+(?:\\.[0-9]+)?\\b") normalized

  unfoldable pub is_generic_or_low_signal_summary : FeedSummary → Bool
  is_generic_or_low_signal_summary summary =
      let headline = normalize_text summary.headline in
      let deck = normalize_text summary.deck in
      let combined = headline ++ chars " " ++ deck in
      if public_copy_has_banned_terms combined
      then true
      else (contains_any combined low_signal_phrases
          || is_no_change_public_copy combined
          || is_operational_status_without_public_impact combined
          || is_file_count_without_public_impact combined
          || is_test_status_without_public_impact combined
          || is_agent_activity_without_public_impact headline combined
          || is_family summary.story_family StoryFamily.file_change
            && contains headline (chars "changed")
            && contains headline (chars "file")
            && contains deck (chars "changed")
            && contains deck (chars "file")
            && not (contains combined (chars "test"))
            && not (contains combined (chars "verified"))
            && not (contains combined (chars "complete")))

  unfoldable pub story_has_public_outcome : CompiledStory → Bool
  story_has_public_outcome story =
      let headline = normalize_text story.headline in
      let deck = normalize_text story.deck in
      let combined = headline ++ chars " " ++ deck in
      not (is_empty (trim combined))
      && not (public_copy_has_banned_terms combined)
      && not (is_operational_status_without_public_impact combined)
      && not (is_file_count_without_public_impact combined)
      && not (is_test_status_without_public_impact combined)
      && not (is_agent_activity_without_public_impact headline combined)
      && has_public_outcome_context combined
