-- ===== src/Summarize/Decision/Laws.antt =====
-- What a summary that is published has passed.
use agent_feed.Prelude.{
  Bool, Bool-cases, List, any, false, if-cases, if◌then◌else◌, inl, inr, leb, list_eq, max, nat_eq,
  not, option_eq, pair_eq, refl, take, true, ◌&&◌, ◌++◌, ◌==◌, ◌||◌, ◌≡◌,
}
use agent_feed.Story.Signature.{StoryUpdateSignature, story_update_signature}
use agent_feed.Summarize.Config.{PublishDecisionConfig, RecentSummary, SummaryRequest}
use agent_feed.Summarize.Decision.{
  Nearest, apply_publish_decision, compared, decide, decide_compared, is_changed,
  is_distinct_new_topic, is_duplicate, nearest_of, no_nearest, override_reason, publish_reason_of,
  similarities, skipped_by_processor,
}
use agent_feed.Summarize.Decision.Closest.{exact_repeat-is_duplicate, is_exact_repeat}
use agent_feed.Summarize.Quality.{Regex, is_generic_or_low_signal_summary}
use agent_feed.Summarize.Types.{FeedSummary, PublishAction}
use agent_feed.Text.{Str, chars}

-- What the gates promise of a summary that they publish.
pub record IsCleared ⦃r : Regex⦄ (policy : PublishDecisionConfig) (nearest : Nearest)
    (summary : FeedSummary) : Type 0 where
  pub action : summary.metadata.publish_action ≡ PublishAction.publish
  pub signal : is_generic_or_low_signal_summary summary ≡ false
  pub new : is_duplicate policy nearest ≡ false

module _ ⦃r : Regex⦄ (policy : PublishDecisionConfig) (nearest : Nearest) where
  abbrev Clears : FeedSummary × Bool → Type 0
  Clears decided = decided.1 ≡ true → IsCleared policy nearest decided.0

  decide-IsCleared :
      (summary : FeedSummary) (reason : Str)
      → is_generic_or_low_signal_summary summary ≡ false
      → is_duplicate policy nearest ≡ false
      → IsCleared policy nearest (decide summary PublishAction.publish reason)
  unfolding decide is_generic_or_low_signal_summary
  decide-IsCleared summary reason signal new = record { action = refl; signal = signal; new = new }

  pub decide_compared-Clears :
      (summary : FeedSummary) → Clears (decide_compared policy nearest summary)
  unfolding decide_compared
  decide_compared-Clears summary =
      if-cases Clears (is_generic_or_low_signal_summary summary) _ _ (λ h. λ p. cc)
        λ signal.
          if-cases Clears (is_duplicate policy nearest) _ _ (λ h. λ p. cc)
            λ new.
              if-cases Clears (skipped_by_processor summary.metadata.publish_action) _ _
                (λ skip.
                  if-cases Clears
                    (summary.metadata.processor == chars "codex-memory"
                      && leb 76 summary.score
                      && not (is_duplicate policy nearest)
                      && (is_changed nearest.relation || is_distinct_new_topic policy nearest))
                    _ _ (λ h p. decide-IsCleared summary (override_reason nearest) signal new)
                    (λ h p. cc))
                λ keep.
                  if-cases Clears (leb policy.severe_score_bypass summary.score) _ _
                    (λ h p. decide-IsCleared summary _ signal new)
                    (λ h p. decide-IsCleared summary _ signal new)

-- What a summary, as it stood and as decided, has passed when the enabled policy publishes it.
pub record IsNews ⦃r : Regex⦄ (recents : List RecentSummary) (summary decided : FeedSummary)
    : Type 0 where
  pub action : decided.metadata.publish_action ≡ PublishAction.publish
  pub signal : is_generic_or_low_signal_summary decided ≡ false
  pub new : any (is_exact_repeat summary) recents ≡ false

module _ ⦃r : Regex⦄ (summary : FeedSummary) (request : SummaryRequest)
    (policy : PublishDecisionConfig) where
  abbrev window : List RecentSummary
  window = take (max policy.recent_window 1) request.recent_summaries

  abbrev signature_of : StoryUpdateSignature
  signature_of = story_update_signature summary.headline summary.deck

  abbrev nearest_in_window : Nearest
  nearest_in_window = nearest_of summary signature_of no_nearest window

  -- A summary that the enabled policy publishes is marked as published, is neither generic nor of
  -- low signal, and repeats none of the recent summaries of the window, that is none of its family
  -- has a headline and a deck that are both wholly alike to its own.
  pub apply_publish_decision-IsNews :
      policy.enabled ≡ true
      → (apply_publish_decision summary request policy).1 ≡ true
      → IsNews
          (take (max policy.recent_window 1) request.recent_summaries)
          summary
          (apply_publish_decision summary request policy).0
  unfolding apply_publish_decision
  apply_publish_decision-IsNews enabled =
      if-cases
        (λ (decided : FeedSummary × Bool). decided.1 ≡ true → IsNews window summary decided.0)
        (not policy.enabled) _ _ (λ off. cc)
        λ on published.
          let cleared =
            decide_compared-Clears policy nearest_in_window
              (compared summary signature_of nearest_in_window) published in
          record {
            action = cleared.action;
            signal = cleared.signal;
            new = elim (Bool-cases (any (is_exact_repeat summary) window)) [
              | inl repeated ↦
                  let duplicate =
                    exact_repeat-is_duplicate policy summary signature_of window repeated in
                  let new = cleared.new in cc
              | inr new ↦ new
            ];
          }

  pub apply_publish_decision-publish :
      (apply_publish_decision summary request policy).1 ≡ true
      → (apply_publish_decision summary request policy).0.metadata.publish_action
        ≡ PublishAction.publish
  unfolding apply_publish_decision decide
  apply_publish_decision-publish =
      if-cases
        (λ (decided : FeedSummary × Bool).
          decided.1 ≡ true → decided.0.metadata.publish_action ≡ PublishAction.publish)
        (not policy.enabled) _ _ (λ off published. refl)
        λ on published.
          (decide_compared-Clears policy nearest_in_window
            (compared summary signature_of nearest_in_window) published).action

-- The verdict of the gates, whatever the summaries they leave.
verdict_of :
    (generic duplicate skipped overridden severe : Bool) (a b c d e f : FeedSummary)
    → let decided : FeedSummary × Bool =
        if generic
        then (a, false)
        else if duplicate
        then (b, false)
        else if skipped
        then (if overridden then (c, true) else (d, false))
        else if severe
        then (e, true)
        else (f, true) in
      decided.1 ≡ (not generic && not duplicate && (not skipped || overridden))
verdict_of true duplicate skipped overridden severe a b c d e f = refl
verdict_of false true skipped overridden severe a b c d e f = refl
verdict_of false false true true severe a b c d e f = refl
verdict_of false false true false severe a b c d e f = refl
verdict_of false false false overridden true a b c d e f = refl
verdict_of false false false overridden false a b c d e f = refl

module _ ⦃r : Regex⦄ (summary : FeedSummary) (request : SummaryRequest)
    (policy : PublishDecisionConfig) where
  -- The enabled policy publishes a summary if and only if it is not generic or of low signal, it is
  -- no duplicate of the nearest recent summary, and its processor did not skip it or the skip is
  -- one of `codex-memory` on a score of at least 76 whose update changed the story or is a distinct
  -- topic. The score that bypasses duplicates plays no part in it.
  pub apply_publish_decision-verdict :
      policy.enabled ≡ true
      → let nearest =
          nearest_of summary
            (story_update_signature summary.headline summary.deck)
            no_nearest
            (take (max policy.recent_window 1) request.recent_summaries) in
        (apply_publish_decision summary request policy).1 ≡ (
          not (is_generic_or_low_signal_summary summary)
          && not (is_duplicate policy nearest)
          && (not (skipped_by_processor summary.metadata.publish_action)
              || summary.metadata.processor == chars "codex-memory"
                && leb 76 summary.score
                && not (is_duplicate policy nearest)
                && (is_changed nearest.relation || is_distinct_new_topic policy nearest)))
  unfolding apply_publish_decision decide_compared is_generic_or_low_signal_summary compared
  apply_publish_decision-verdict enabled =
      let nearest =
        nearest_of summary (story_update_signature summary.headline summary.deck) no_nearest
          (take (max policy.recent_window 1) request.recent_summaries) in
      if-cases
        (λ (decided : FeedSummary × Bool). decided.1 ≡ (
          not (is_generic_or_low_signal_summary summary)
          && not (is_duplicate policy nearest)
          && (not (skipped_by_processor summary.metadata.publish_action)
              || summary.metadata.processor == chars "codex-memory"
                && leb 76 summary.score
                && not (is_duplicate policy nearest)
                && (is_changed nearest.relation || is_distinct_new_topic policy nearest))))
        (not policy.enabled) _ _ (λ off. cc)
        λ on.
          let seen =
            compared summary (story_update_signature summary.headline summary.deck) nearest in
          verdict_of (is_generic_or_low_signal_summary summary) (is_duplicate policy nearest)
            (skipped_by_processor summary.metadata.publish_action)
            (summary.metadata.processor == chars "codex-memory"
              && leb 76 summary.score
              && not (is_duplicate policy nearest)
              && (is_changed nearest.relation || is_distinct_new_topic policy nearest))
            (leb policy.severe_score_bypass summary.score)
            (decide seen PublishAction.skip_processor
              (chars "summary quality gate rejected a generic low-context headline"))
            (decide seen PublishAction.skip_duplicate (
              chars "headline did not meaningfully change from a recent published summary ("
              ++ similarities nearest
              ++ chars ")"))
            (decide seen PublishAction.publish (override_reason nearest)) seen
            (decide seen PublishAction.publish
              (chars "high-severity summary bypassed duplicate suppression"))
            (decide seen PublishAction.publish (publish_reason_of nearest))
