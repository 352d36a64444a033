-- ===== src/Summarize/Tests.antt =====
-- Runs of the publish decision, the feed and the clamp, with regular expressions that match nothing.
use agent_feed.Core.{PrivacyClass, Severity}
use agent_feed.Prelude.{
  All, List, [], any_eq, false, inr, leb, length, list_beq, list_cmp, list_eq, list_ord, nat_eq,
  nat_ord, none, not, option_eq, option_ord, pair_eq, pair_ord, refl, result_then, set_extend, take,
  ◌&&◌, ◌==◌, ◌||◌, ◌∷◌, ◌≡◌, ◌≤◌,
}
use agent_feed.Story.Keys.{family_cmp, family_rank}
use agent_feed.Story.Signature.{run_signature, story_update_signature}
use agent_feed.Story.Types.{CompiledStory, StoryFamily}
use agent_feed.Summarize.Clamp.{clamp_chars, is_clamp_end, last_whitespace}
use agent_feed.Summarize.Clamp.Laws.{length-clamp_chars-le}
use agent_feed.Summarize.Config.{
  FeedSummaryMode, RecentSummary, SummaryRequest, default_budget, default_publish, new_request,
  recent_of,
}
use agent_feed.Summarize.Decision.{
  apply_publish_decision, compared, decide, decide_compared, is_changed, is_distinct_new_topic,
  is_duplicate, nearer, nearest_of, no_nearest, override_reason, publish_reason_of, relation_as_str,
  skipped_by_processor,
}
use agent_feed.Summarize.Decision.Laws.{
  IsNews, apply_publish_decision-IsNews, apply_publish_decision-verdict,
}
use agent_feed.Summarize.Feed.{
  batches_of, push_publishable_summary, request_of, summarize_batch, summarize_batches,
  summarize_feed_inner,
}
use agent_feed.Summarize.Feed.Laws.{IsPublic, summarize_feed_inner-published}
use agent_feed.Summarize.Quality.{
  Regex, has_public_outcome_context, is_agent_activity_without_public_impact,
  is_file_count_without_public_impact, is_generic_or_low_signal_summary, is_no_change_public_copy,
  is_operational_status_without_public_impact, is_test_status_without_public_impact,
  public_copy_has_banned_terms,
}
use agent_feed.Summarize.Similarity.{
  all_terms, headline_fingerprint, headline_similarity, is_similarity_stopword, meaningful_terms,
  normalize_text, shared_terms, similarity_stem, text_similarity,
}
use agent_feed.Summarize.Types.{FeedSummary, PublishAction}
use agent_feed.Text.{
  Str, chars, contains_any, drop_while, drop_while_end, is_ascii_alphanumeric, is_whitespace, join,
  lower_char, split_whitespace, strip_suffix, utf8,
}

instance abbrev no_matches : Regex
no_matches = record {
  is_match = λ pattern text. false;
  replace_all = λ pattern text replacement. text;
}

-- The sample summary and what a feed has published before.
abbrev said : Str → Str → FeedSummary
said headline deck = record {
  story_window = chars "w";
  source_agent_kinds = [];
  headline = headline;
  deck = deck;
  lower_third = [];
  chips = [];
  image = none;
  story_family = StoryFamily.test;
  severity = Severity.notice;
  score = 70;
  privacy_class = PrivacyClass.redacted;
  evidence_event_ids = [];
  metadata = record {
    processor = chars "builtin";
    policy = [];
    image_processor = [];
    publish_action = PublishAction.publish;
    publish_reason = [];
    headline_fingerprint = [];
    topic_fingerprint = [];
    state_fingerprint = [];
    impact_fingerprint = [];
    update_relation = [];
    max_headline_similarity = 0;
    max_deck_similarity = 0;
    guardrail_version = 1;
    input_stories = 1;
    output_chars = 0;
    external_cost_allowed = false;
    image_enabled = false;
    violations = [];
  };
}

abbrev resumes : FeedSummary
resumes = said (chars "browser sync resumes after restart") (chars "uploads complete")

abbrev asked : List RecentSummary → SummaryRequest
asked recents = record (new_request (chars "f") FeedSummaryMode.per_story []) {
  recent_summaries = recents;
}

abbrev earlier : List RecentSummary
earlier = recent_of (said (chars "deploy enters adoption") (chars "terraform state moves")) ∷ []

compute : Unit {0}
unfolding apply_publish_decision nearest_of nearer decide_compared decide is_duplicate compared
    is_distinct_new_topic override_reason publish_reason_of relation_as_str
    is_generic_or_low_signal_summary public_copy_has_banned_terms is_no_change_public_copy
    is_file_count_without_public_impact is_test_status_without_public_impact
    is_agent_activity_without_public_impact is_operational_status_without_public_impact
    has_public_outcome_context run_signature normalize_text similarity_stem is_similarity_stopword
    meaningful_terms shared_terms all_terms text_similarity headline_similarity headline_fingerprint
    recent_of new_request default_publish contains_any join split_whitespace is_ascii_alphanumeric
    lower_char family_cmp family_rank list_beq set_extend any_eq list_cmp strip_suffix utf8
compute = tt

repeat_is_skipped :
    (apply_publish_decision resumes (asked (recent_of resumes ∷ earlier)) default_publish).1 ≡ false
unfolding compute
repeat_is_skipped = refl

apply_publish_decision-IsNews_example :
    IsNews
      (take 24 earlier)
      resumes
      (apply_publish_decision resumes (asked earlier) default_publish).0
unfolding compute
apply_publish_decision-IsNews_example =
    apply_publish_decision-IsNews resumes (asked earlier) default_publish refl refl

abbrev long_text : Str
long_text = chars "browser sync resumes after a restart of the node"

length-clamp_chars-le_example : length (clamp_chars long_text 24) ≤ 24
length-clamp_chars-le_example = length-clamp_chars-le long_text 24

clamped : clamp_chars long_text 24 ≡ chars "browser sync resumes..."
unfolding clamp_chars last_whitespace is_clamp_end drop_while_end drop_while is_whitespace utf8
clamped = refl

abbrev story : CompiledStory
story = record {
  key = record {
    feed_id = none;
    agent = chars "codex";
    project_hash = none;
    session_id = none;
    turn_id = none;
    family = StoryFamily.test;
  };
  created_at = 10;
  family = StoryFamily.test;
  agent = chars "codex";
  project = none;
  headline = chars "browser sync resumes after restart";
  deck = chars "uploads complete";
  lower_third = [];
  chips = [];
  severity = Severity.notice;
  score = 70;
  context_score = 80;
  privacy = PrivacyClass.redacted;
  evidence_event_ids = [];
}

-- Two stories with one summary, which is published once.
told_once :
    summarize_feed_inner default_publish
      (λ request. inr resumes)
      (chars "f")
      FeedSummaryMode.per_story
      default_budget
      (story ∷ story ∷ [])
      []
    ≡ inr ((apply_publish_decision resumes (asked []) default_publish).0 ∷ [])
unfolding compute summarize_feed_inner summarize_batches summarize_batch result_then batches_of
    push_publishable_summary request_of
told_once = refl

summarize_feed_inner-published_example :
    (1 ≤ 2) × All IsPublic ((apply_publish_decision resumes (asked []) default_publish).0 ∷ [])
summarize_feed_inner-published_example =
    summarize_feed_inner-published default_publish (λ request. inr resumes) (chars "f")
      FeedSummaryMode.per_story default_budget (story ∷ story ∷ []) []
      ((apply_publish_decision resumes (asked []) default_publish).0 ∷ []) told_once

apply_publish_decision-verdict_example :
    let nearest =
      nearest_of resumes
        (story_update_signature resumes.headline resumes.deck)
        no_nearest
        (take 24 earlier) in
    (apply_publish_decision resumes (asked earlier) default_publish).1 ≡ (
      not (is_generic_or_low_signal_summary resumes)
      && not (is_duplicate default_publish nearest)
      && (not (skipped_by_processor resumes.metadata.publish_action)
          || resumes.metadata.processor == chars "codex-memory"
            && leb 76 resumes.score
            && not (is_duplicate default_publish nearest)
            && (is_changed nearest.relation || is_distinct_new_topic default_publish nearest)))
unfolding default_publish
apply_publish_decision-verdict_example =
    apply_publish_decision-verdict resumes (asked earlier) default_publish refl
