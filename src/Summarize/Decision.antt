-- ===== src/Summarize/Decision.antt =====
-- `apply_publish_decision`: whether a summary is new enough to publish.
pub mod Laws
pub mod Closest
use agent_feed.Prelude.{
  Bool, List, [], false, if◌then◌else◌, leb, list_eq, ltb, max, nat_eq, not, option_eq, pair_eq,
  take, true, ℕ, ◌&&◌, ◌++◌, ◌==◌, ◌||◌, ◌∷◌,
}
use agent_feed.Story.Keys.{is_family}
use agent_feed.Story.Signature.{
  StoryUpdateRelation, StoryUpdateSignature, story_update_relation, story_update_signature,
}
use agent_feed.Summarize.Config.{PublishDecisionConfig, RecentSummary, SummaryRequest}
use agent_feed.Summarize.Quality.{Regex, is_generic_or_low_signal_summary}
use agent_feed.Summarize.Similarity.{headline_fingerprint, headline_similarity, text_similarity}
use agent_feed.Summarize.Types.{FeedSummary, PublishAction}
use agent_feed.Text.{Str, chars, decimal}

-- The nearest of the recent summaries: its similarities, whether there is one, its relation.
pub record Nearest : Type 0 where
  pub headline : ℕ
  pub deck : ℕ
  pub found : Bool
  pub relation : StoryUpdateRelation

abbrev pub no_nearest : Nearest
no_nearest = record {
  headline = 0;
  deck = 0;
  found = false;
  relation = StoryUpdateRelation.new_topic;
}

-- One round of the loop over the recent summaries.
unfoldable pub nearer : FeedSummary → StoryUpdateSignature → Nearest → RecentSummary → Nearest
nearer summary signature nearest recent =
    let headline_score = headline_similarity summary.headline recent.headline in
    let deck_score = text_similarity summary.deck recent.deck in
    if not (is_family recent.story_family summary.story_family)
    then nearest
    else if ltb nearest.headline headline_score
        || headline_score == nearest.headline && ltb nearest.deck deck_score
    then record {
      headline = headline_score;
      deck = deck_score;
      found = true;
      relation =
          story_update_relation signature (story_update_signature recent.headline recent.deck);
    }
    else nearest

unfoldable pub nearest_of :
    FeedSummary → StoryUpdateSignature → Nearest → List RecentSummary → Nearest
nearest_of summary signature nearest [] = nearest
nearest_of summary signature nearest (recent ∷ recents) =
    nearest_of summary signature (nearer summary signature nearest recent) recents

unfoldable pub relation_as_str : StoryUpdateRelation → Str
relation_as_str StoryUpdateRelation.new_topic = chars "new_topic"
relation_as_str StoryUpdateRelation.exact_repeat = chars "exact_repeat"
relation_as_str StoryUpdateRelation.same_state = chars "same_state"
relation_as_str StoryUpdateRelation.state_changed = chars "state_changed"
relation_as_str StoryUpdateRelation.impact_changed = chars "impact_changed"

abbrev pub is_changed : StoryUpdateRelation → Bool
is_changed StoryUpdateRelation.state_changed = true
is_changed StoryUpdateRelation.impact_changed = true
is_changed _ = false

abbrev pub is_repeat : StoryUpdateRelation → Bool
is_repeat StoryUpdateRelation.exact_repeat = true
is_repeat StoryUpdateRelation.same_state = true
is_repeat _ = false

abbrev pub is_new_topic : StoryUpdateRelation → Bool
is_new_topic StoryUpdateRelation.new_topic = true
is_new_topic _ = false

unfoldable pub is_duplicate : PublishDecisionConfig → Nearest → Bool
is_duplicate policy nearest =
    nearest.found && nearest.headline == 100 && nearest.deck == 100
    || nearest.found && nearest.headline == 100 && not (is_changed nearest.relation)
    || nearest.found
      && is_repeat nearest.relation
      && leb policy.max_headline_similarity nearest.headline
      && leb policy.max_deck_similarity_when_headline_matches nearest.deck

unfoldable pub is_distinct_new_topic : PublishDecisionConfig → Nearest → Bool
is_distinct_new_topic policy nearest =
    not nearest.found
    || is_new_topic nearest.relation
    || ltb nearest.headline policy.max_headline_similarity
    || ltb nearest.deck policy.max_deck_similarity_when_headline_matches

-- The summary with an action and its reason.
unfoldable pub decide : FeedSummary → PublishAction → Str → FeedSummary
decide summary action reason = record summary {
  metadata = record summary.metadata { publish_action = action; publish_reason = reason };
}

abbrev pub similarities : Nearest → Str
similarities nearest =
    chars "headline similarity "
    ++ decimal nearest.headline
    ++ chars ", deck similarity "
    ++ decimal nearest.deck

-- The metadata that the comparison writes before the gates.
unfoldable pub compared : FeedSummary → StoryUpdateSignature → Nearest → FeedSummary
compared summary signature nearest = record summary {
  metadata = record summary.metadata {
    topic_fingerprint = signature.topic_fingerprint;
    state_fingerprint = signature.state_fingerprint;
    impact_fingerprint = signature.impact_fingerprint;
    max_headline_similarity = nearest.headline;
    max_deck_similarity = nearest.deck;
    headline_fingerprint = headline_fingerprint summary.headline;
    update_relation =
        if nearest.found
        then relation_as_str nearest.relation
        else relation_as_str StoryUpdateRelation.new_topic;
  };
}

unfoldable pub override_reason : Nearest → Str
override_reason nearest =
    if is_changed nearest.relation
    then chars "codex-memory skip overridden because the same topic "
      ++ relation_as_str nearest.relation
    else if nearest.found
    then chars
        "codex-memory skip overridden because the summary is a distinct story update (nearest "
      ++ similarities nearest
      ++ chars ")"
    else chars "codex-memory skip overridden because there is no recent matching feed summary"

unfoldable pub publish_reason_of : Nearest → Str
publish_reason_of nearest =
    if is_changed nearest.relation
    then chars "same topic published again because the story "
      ++ relation_as_str nearest.relation
      ++ chars " (nearest "
      ++ similarities nearest
      ++ chars ")"
    else if nearest.found
    then chars "headline changed enough to publish (nearest " ++ similarities nearest ++ chars ")"
    else chars "no recent matching feed summary"

abbrev pub skipped_by_processor : PublishAction → Bool
skipped_by_processor PublishAction.skip_processor = true
skipped_by_processor _ = false

-- The gates after the comparison, in their order.
unfoldable pub decide_compared :
    ⦃r : Regex⦄ → PublishDecisionConfig → Nearest → FeedSummary → FeedSummary × Bool
decide_compared policy nearest summary =
    if is_generic_or_low_signal_summary summary
    then (
      decide summary PublishAction.skip_processor
          (chars "summary quality gate rejected a generic low-context headline"),
      false,
    )
    else if is_duplicate policy nearest
    then (
      decide summary PublishAction.skip_duplicate (
          chars "headline did not meaningfully change from a recent published summary ("
          ++ similarities nearest
          ++ chars ")"),
      false,
    )
    else if skipped_by_processor summary.metadata.publish_action
    then (if summary.metadata.processor == chars "codex-memory"
          && leb 76 summary.score
          && not (is_duplicate policy nearest)
          && (is_changed nearest.relation || is_distinct_new_topic policy nearest)
        then (decide summary PublishAction.publish (override_reason nearest), true)
        else (summary, false))
    else if leb policy.severe_score_bypass summary.score
    then (
      decide summary PublishAction.publish
          (chars "high-severity summary bypassed duplicate suppression"),
      true,
    )
    else (decide summary PublishAction.publish (publish_reason_of nearest), true)

unfoldable pub apply_publish_decision :
    ⦃r : Regex⦄ → FeedSummary → SummaryRequest → PublishDecisionConfig → FeedSummary × Bool
apply_publish_decision summary request policy =
    let signature = story_update_signature summary.headline summary.deck in
    let nearest =
      nearest_of summary signature no_nearest
        (take (max policy.recent_window 1) request.recent_summaries) in
    if not policy.enabled
    then (decide summary PublishAction.publish (chars "publish policy disabled"), true)
    else decide_compared policy nearest (compared summary signature nearest)
