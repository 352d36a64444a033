-- ===== src/Summarize/Feed.antt =====
-- `summarize_feed_inner`: the batches of stories and the summaries that are published of them.
pub mod Laws
pub mod Batches
use agent_feed.Prelude.{
  Bool, List, [], false, if◌then◌else◌, inl, inr, is_empty, leb, length, ltb, map, max, not,
  result_then, take, true, ℕ, ◌&&◌, ◌++◌, ◌-◌, ◌∷◌, ◌⊎◌,
}
use agent_feed.Story.Types.{CompiledStory}
use agent_feed.Summarize.Config.{
  FeedSummaryMode, PublishDecisionConfig, RecentSummary, SummaryBudget, SummaryError,
  SummaryRequest, new_request, recent_of,
}
use agent_feed.Summarize.Decision.{apply_publish_decision}
use agent_feed.Summarize.Quality.{Regex}
use agent_feed.Summarize.Types.{FeedSummary}
use agent_feed.Text.{Str}

unfoldable pub prepend_to_chunk : {A : Type 0} → A → List (List A) → List (List A)
prepend_to_chunk x [] = (x ∷ []) ∷ []
prepend_to_chunk x (chunk ∷ chunks) = (x ∷ chunk) ∷ chunks

-- `slice::chunks`, with the room that is left in the chunk at hand.
unfoldable pub chunks_from : {A : Type 0} → ℕ → ℕ → List A → List (List A)
chunks_from size room [] = []
chunks_from size room (x ∷ xs) =
    let rest = chunks_from size (if leb room 1 then size else room - 1) xs in
    if leb room 1 then (x ∷ []) ∷ rest else prepend_to_chunk x rest

unfoldable pub batches_of :
    FeedSummaryMode → SummaryBudget → List CompiledStory → List (List CompiledStory)
batches_of FeedSummaryMode.per_story budget stories = map (λ story. story ∷ []) stories
batches_of FeedSummaryMode.feed_rollup budget stories =
    let size = max budget.max_feed_rollup_stories 1 in chunks_from size size stories

-- The recent summaries, newest first, and the summaries that are published.
pub record SummaryRun : Type 0 where
  pub recent : List RecentSummary
  pub summaries : List FeedSummary

abbrev pub is_guardrail : SummaryError → Bool
is_guardrail (SummaryError.guardrail_rejected name) = true
is_guardrail _ = false

module _ ⦃r : Regex⦄ (policy : PublishDecisionConfig) where
  unfoldable pub push_publishable_summary : FeedSummary → SummaryRequest → SummaryRun → SummaryRun
  push_publishable_summary summary request run =
      let (decided, publishes) = apply_publish_decision summary request policy in
      if not publishes then run else record {
        recent = take (max policy.recent_window 1) (recent_of decided ∷ run.recent);
        summaries = run.summaries ++ decided ∷ [];
      }

  -- `summarize_request_inner`, which runs the processors, is a parameter.
  module _ (summarize : SummaryRequest → SummaryError ⊎ FeedSummary) (feed_id : Str) where
    unfoldable pub request_of : FeedSummaryMode → List CompiledStory → SummaryRun → SummaryRequest
    request_of mode stories run = record (new_request feed_id mode stories) {
      recent_summaries = run.recent;
    }

    -- The stories of a batch one by one, after the guardrails refused the batch.
    unfoldable pub retry_stories : List CompiledStory → SummaryRun → SummaryError ⊎ SummaryRun
    retry_stories [] run = inr run
    retry_stories (story ∷ stories) run =
        let request = request_of FeedSummaryMode.per_story (story ∷ []) run in
        elim (summarize request) [
          | inr summary ↦ retry_stories stories (push_publishable_summary summary request run)
          | inl e ↦ if is_guardrail e then retry_stories stories run else inl e
        ]

    unfoldable pub summarize_batch :
        FeedSummaryMode → List CompiledStory → SummaryRun → SummaryError ⊎ SummaryRun
    summarize_batch mode batch run =
        let request = request_of mode batch run in
        elim (summarize request) [
          | inr summary ↦ inr (push_publishable_summary summary request run)
          | inl e ↦
              if is_guardrail e && ltb 1 (length batch)
              then retry_stories batch run
              else if is_guardrail e
              then inr run
              else inl e
        ]

    unfoldable pub summarize_batches :
        FeedSummaryMode → List (List CompiledStory) → SummaryRun → SummaryError ⊎ SummaryRun
    summarize_batches mode [] run = inr run
    summarize_batches mode (batch ∷ batches) run =
        result_then (summarize_batch mode batch run) (summarize_batches mode batches)

    unfoldable pub summarize_feed_inner :
        FeedSummaryMode
        → SummaryBudget
        → List CompiledStory
        → List RecentSummary
        → SummaryError ⊎ List FeedSummary
    summarize_feed_inner mode budget stories recent =
        let start : SummaryRun = record {
          recent = take (max policy.recent_window 1) recent;
          summaries = [];
        } in
        if is_empty stories
        then inr []
        else result_then (summarize_batches mode (batches_of mode budget stories) start)
            (λ run. inr run.summaries)
