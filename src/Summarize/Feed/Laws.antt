-- ===== src/Summarize/Feed/Laws.antt =====
-- What the published summaries of a feed satisfy, and how many there are.
use mathlib.Core.List.{flatten}
use mathlib.Core.Path.{subst}
use agent_feed.Prelude.{
  All, All-append, Gives, List, [], ap, arith, if-cases, inl, inr, is_empty, length, length-append,
  length-take-le, ltb, max, not, result-cases, result_then-Gives, take, ℕ, ◌&&◌, ◌+◌, ◌∷◌, ◌≡◌, ◌≤◌,
  ◌⊎◌,
}
use agent_feed.Story.Types.{CompiledStory}
use agent_feed.Summarize.Config.{
  FeedSummaryMode, PublishDecisionConfig, RecentSummary, SummaryBudget, SummaryError,
  SummaryRequest, recent_of,
}
use agent_feed.Summarize.Decision.{apply_publish_decision}
use agent_feed.Summarize.Decision.Laws.{apply_publish_decision-publish}
use agent_feed.Summarize.Feed.{
  SummaryRun, batches_of, is_guardrail, push_publishable_summary, request_of, retry_stories,
  summarize_batch, summarize_batches, summarize_feed_inner,
}
use agent_feed.Summarize.Feed.Batches.{batches_of-full, flatten-batches_of}
use agent_feed.Summarize.Quality.{Regex}
use agent_feed.Summarize.Types.{FeedSummary, PublishAction}
use agent_feed.Text.{Str}

abbrev pub IsPublic : FeedSummary → Type 0
IsPublic summary = summary.metadata.publish_action ≡ PublishAction.publish

-- The runs that a batch leaves: every summary published, and no more of them than the count.
pub record IsRun (policy : PublishDecisionConfig) (most : ℕ) (run : SummaryRun) : Type 0 where
  pub published : All IsPublic run.summaries
  pub count : length run.summaries ≤ most
  pub window : length run.recent ≤ max policy.recent_window 1

module _ ⦃r : Regex⦄ (policy : PublishDecisionConfig) where
  push_publishable_summary-IsRun :
      (summary : FeedSummary) (request : SummaryRequest) (run : SummaryRun) (most : ℕ)
      → IsRun policy most run
      → IsRun policy (most + 1) (push_publishable_summary policy summary request run)
  unfolding push_publishable_summary
  push_publishable_summary-IsRun summary request run most before =
      let decided = apply_publish_decision summary request policy in
      if-cases (IsRun policy (most + 1)) (not decided.1) run _
        (λ skipped. record {
          published = before.published;
          count = omega (arith, before.count);
          window = before.window;
        })
        λ kept. record {
          published =
              All-append _ run.summaries (decided.0 ∷ []) before.published
                (apply_publish_decision-publish summary request policy (ground arith), tt);
          count = omega (arith, before.count, length-append run.summaries (decided.0 ∷ []));
          window = length-take-le (max policy.recent_window 1) (recent_of decided.0 ∷ run.recent);
        }

  IsRun-more :
      (run : SummaryRun) (few many : ℕ) → few ≤ many → IsRun policy few run → IsRun policy many run
  IsRun-more run few many h before = record {
    published = before.published;
    count = omega (arith, h, before.count);
    window = before.window;
  }

  module _ (summarize : SummaryRequest → SummaryError ⊎ FeedSummary) (feed_id : Str) where
    -- The counts add up to the stories, whatever the guardrails refuse.
    retry_stories-IsRun :
        (stories : List CompiledStory) (run : SummaryRun) (most total : ℕ)
        → most + length stories ≤ total
        → IsRun policy most run
        → Gives (IsRun policy total) (retry_stories policy summarize feed_id stories run)
    unfolding retry_stories
    retry_stories-IsRun [] run most total room before =
        IsRun-more run most total (omega (arith, room)) before
    retry_stories-IsRun (story ∷ stories) run most total room before =
        let request =
          request_of policy summarize feed_id FeedSummaryMode.per_story (story ∷ []) run in
        result-cases (Gives (IsRun policy total)) (summarize request) _ _
          (λ e.
            if-cases (Gives (IsRun policy total)) (is_guardrail e) _ (inl e)
              (λ refused. retry_stories-IsRun stories run most total (omega (arith, room)) before)
              (λ failed. tt))
          λ summary.
            retry_stories-IsRun stories (push_publishable_summary policy summary request run)
              (most + 1) total (omega (arith, room))
              (push_publishable_summary-IsRun summary request run most before)

    summarize_batch-IsRun :
        (mode : FeedSummaryMode) (batch : List CompiledStory) (run : SummaryRun) (most total : ℕ)
        → 1 ≤ length batch
        → most + length batch ≤ total
        → IsRun policy most run
        → Gives (IsRun policy total) (summarize_batch policy summarize feed_id mode batch run)
    unfolding summarize_batch
    summarize_batch-IsRun mode batch run most total nonempty room before =
        let request = request_of policy summarize feed_id mode batch run in
        let more = IsRun-more run most total (omega (arith, room)) before in
        result-cases (Gives (IsRun policy total)) (summarize request) _ _
          (λ e.
            if-cases (Gives (IsRun policy total)) (is_guardrail e && ltb 1 (length batch)) _ _
              (λ refused. retry_stories-IsRun batch run most total room before)
              λ single.
                if-cases (Gives (IsRun policy total)) (is_guardrail e) (inr run) (inl e)
                  (λ refused. more) (λ failed. tt))
          λ summary.
            let pushed = push_publishable_summary policy summary request run in
            IsRun-more pushed (most + 1) total (omega (arith, nonempty, room))
              (push_publishable_summary-IsRun summary request run most before)

    summarize_batches-IsRun :
        (mode : FeedSummaryMode) (batches : List (List CompiledStory)) (run : SummaryRun)
        (most total : ℕ)
        → All (λ batch. 1 ≤ length batch) batches
        → most + length (flatten batches) ≤ total
        → IsRun policy most run
        → Gives (IsRun policy total) (summarize_batches policy summarize feed_id mode batches run)
    unfolding summarize_batches flatten
    summarize_batches-IsRun mode [] run most total full room before =
        IsRun-more run most total (omega (arith, room)) before
    summarize_batches-IsRun mode (batch ∷ batches) run most total full room before =
        let counted = length-append batch (flatten batches) in
        result_then-Gives (IsRun policy (most + length batch)) (IsRun policy total) _ _
          (summarize_batch-IsRun mode batch run most (most + length batch) full.0 (omega arith)
            before)
          λ after.
            summarize_batches-IsRun mode batches after (most + length batch) total full.1
              (omega (arith, counted, room))

    feed-Gives :
        (mode : FeedSummaryMode) (budget : SummaryBudget) (stories : List CompiledStory)
        (recent : List RecentSummary)
        → Gives
            (λ summaries. (length summaries ≤ length stories) × All IsPublic summaries)
            (summarize_feed_inner policy summarize feed_id mode budget stories recent)
    unfolding summarize_feed_inner
    feed-Gives mode budget stories recent =
        let start : SummaryRun = record {
          recent = take (max policy.recent_window 1) recent;
          summaries = [];
        } in
        let all_stories = ap length (flatten-batches_of mode budget stories) in
        if-cases (Gives λ summaries. (length summaries ≤ length stories) × All IsPublic summaries)
          (is_empty stories) (inr []) _ (λ none_at_all. (omega arith, tt))
          λ more.
            result_then-Gives (IsRun policy (length stories)) _ _ _
              (summarize_batches-IsRun mode (batches_of mode budget stories) start 0
                (length stories) (batches_of-full mode budget stories) (omega (arith, all_stories))
                (record {
                  published = tt;
                  count = omega arith;
                  window = length-take-le (max policy.recent_window 1) recent;
                }))
              λ run done. (done.count, done.published)

    -- When the summaries of a feed are given, there are no more of them than stories, whatever the
    -- mode and however the guardrails send batches back to single stories, and each of them is
    -- marked as published.
    pub summarize_feed_inner-published :
        (mode : FeedSummaryMode) (budget : SummaryBudget) (stories : List CompiledStory)
        (recent : List RecentSummary) (summaries : List FeedSummary)
        → summarize_feed_inner policy summarize feed_id mode budget stories recent ≡ inr summaries
        → (length summaries ≤ length stories) × All IsPublic summaries
    summarize_feed_inner-published mode budget stories recent summaries given =
        subst (Gives λ summaries. (length summaries ≤ length stories) × All IsPublic summaries)
          given (feed-Gives mode budget stories recent)
