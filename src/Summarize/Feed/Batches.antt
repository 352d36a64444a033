-- ===== src/Summarize/Feed/Batches.antt =====
-- The batches of the stories of a feed: all the stories in order, and no batch empty.
use mathlib.Core.List.{flatten}
use agent_feed.Prelude.{
  All, List, [], ap, arith, if-cases, if◌then◌else◌, leb, length, map, max, refl, ℕ, ◌-◌, ◌∙◌, ◌∷◌,
  ◌≡◌, ◌≤◌,
}
use agent_feed.Story.Types.{CompiledStory}
use agent_feed.Summarize.Config.{FeedSummaryMode, SummaryBudget}
use agent_feed.Summarize.Feed.{batches_of, chunks_from, prepend_to_chunk}

-- The stories of a feed, batch by batch, in their order.
module _ {A : Type 0} where
  flatten-prepend_to_chunk :
      (x : A) (chunks : List (List A)) → flatten (prepend_to_chunk x chunks) ≡ x ∷ flatten chunks
  unfolding prepend_to_chunk flatten
  flatten-prepend_to_chunk x [] = refl
  flatten-prepend_to_chunk x (chunk ∷ chunks) = refl

  pub flatten-chunks_from : (size room : ℕ) (xs : List A) → flatten (chunks_from size room xs) ≡ xs
  unfolding chunks_from flatten
  flatten-chunks_from size room [] = refl
  flatten-chunks_from size room (x ∷ xs) =
      let rest = chunks_from size (if leb room 1 then size else room - 1) xs in
      let same = flatten-chunks_from size (if leb room 1 then size else room - 1) xs in
      if-cases (λ chunks. flatten chunks ≡ x ∷ xs) (leb room 1) ((x ∷ []) ∷ rest)
        (prepend_to_chunk x rest) (λ full. ap (λ ys. x ∷ ys) same)
        (λ more. flatten-prepend_to_chunk x rest ∙ ap (λ ys. x ∷ ys) same)

  flatten-singletons : (xs : List A) → flatten (map (λ x. x ∷ []) xs) ≡ xs
  unfolding flatten
  flatten-singletons [] = refl
  flatten-singletons (x ∷ xs) = ap (λ ys. x ∷ ys) (flatten-singletons xs)

-- No chunk is empty.
module _ {A : Type 0} where
  prepend_to_chunk-full :
      (x : A) (chunks : List (List A))
      → All (λ chunk. 1 ≤ length chunk) chunks
      → All (λ chunk. 1 ≤ length chunk) (prepend_to_chunk x chunks)
  unfolding prepend_to_chunk
  prepend_to_chunk-full x [] full = (omega arith, tt)
  prepend_to_chunk-full x (chunk ∷ chunks) full = (omega arith, full.1)

  chunks_from-full :
      (size room : ℕ) (xs : List A) → All (λ chunk. 1 ≤ length chunk) (chunks_from size room xs)
  unfolding chunks_from
  chunks_from-full size room [] = tt
  chunks_from-full size room (x ∷ xs) =
      let full = chunks_from-full size (if leb room 1 then size else room - 1) xs in
      if-cases (All (λ chunk. 1 ≤ length chunk)) (leb room 1) _ _ (λ h. (omega arith, full))
        (λ h. prepend_to_chunk-full x _ full)

  singletons-full : (xs : List A) → All (λ chunk. 1 ≤ length chunk) (map (λ x. x ∷ []) xs)
  singletons-full [] = tt
  singletons-full (x ∷ xs) = (omega arith, singletons-full xs)

pub batches_of-full :
    (mode : FeedSummaryMode) (budget : SummaryBudget) (stories : List CompiledStory)
    → All (λ batch. 1 ≤ length batch) (batches_of mode budget stories)
unfolding batches_of
batches_of-full FeedSummaryMode.per_story budget stories = singletons-full stories
batches_of-full FeedSummaryMode.feed_rollup budget stories =
    let size = max budget.max_feed_rollup_stories 1 in chunks_from-full size size stories

pub flatten-batches_of :
    (mode : FeedSummaryMode) (budget : SummaryBudget) (stories : List CompiledStory)
    → flatten (batches_of mode budget stories) ≡ stories
unfolding batches_of
flatten-batches_of FeedSummaryMode.per_story budget stories = flatten-singletons stories
flatten-batches_of FeedSummaryMode.feed_rollup budget stories =
    let size = max budget.max_feed_rollup_stories 1 in flatten-chunks_from size size stories
