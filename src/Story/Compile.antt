-- ===== src/Story/Compile.antt =====
-- From a window to a story: the gate that rejects it, and the copy that is made of it.
use agent_feed.Core.{PrivacyClass, Time}
use agent_feed.Prelude.{
  Bool, List, Option, String, [], and_then, if◌then◌else◌, is_some, list_eq, ltb, map_option,
  map_or, max, min, nat_eq, none, not, option_eq, pair_eq, some, take, unwrap_or, ℕ, ◌&&◌, ◌++◌,
  ◌==◌, ◌||◌, ◌∷◌,
}
use agent_feed.Story.Copy.{deck_of, display_project_label, headline_of, lower_third_of}
use agent_feed.Story.Keys.{is_turn, story_family_label}
use agent_feed.Story.Quality.{is_low_quality_story}
use agent_feed.Story.Rewrite.{story_impact_rewrite}
use agent_feed.Story.Scores.{context_score, has_command_topic, story_score}
use agent_feed.Story.Summaries.{
  active_progress_summary_for_project, active_summary_has_release_outcome,
  active_update_summary_for_project, project_is_generic_label, project_is_internal_debug_project,
  project_is_public_signal,
}
use agent_feed.Story.Types.{CompiledStory, StoryCompilerConfig, StoryWindow}
use agent_feed.Text.{Str, Unicode, chars, decimal}

pub record StoryCompileRejection : Type 0 where
  pub reason : Str
  pub score : ℕ
  pub context_score : ℕ

-- `value.clamp(lo, hi)`
abbrev pub clamp : ℕ → ℕ → ℕ → ℕ
clamp value lo hi = min (max value lo) hi

unfoldable pub concrete_activity_project : StoryWindow → Option Str
concrete_activity_project window =
    let counters = window.counters in
    and_then window.key.project_hash λ project.
      if project_is_generic_label project
      then none
      else if project_is_internal_debug_project project
          && counters.tests_failed == 0
          && counters.tests_passed == 0
          && counters.files_changed == 0
      then none
      else some project

abbrev has_checks : StoryWindow → Bool
has_checks window =
    has_command_topic window (chars "verification") || has_command_topic window (chars "ci status")

unfoldable pub checkpoint_copy : StoryWindow → Str → Option (Str × Str)
checkpoint_copy window project =
    let counters = window.counters in
    let min_publishable_events : ℕ = if project_is_public_signal project then 4 else 5 in
    if ltb window.publishable_events min_publishable_events
    then none
    else if ltb 0 counters.tests_failed
    then some (
      project ++ chars " verification is red",
      chars
          "a failing test signal arrived while the turn is still open; final recovery has not landed yet.",
    )
    else if ltb 0 counters.tests_passed && ltb 0 counters.files_changed
    then some (
      project ++ chars " changes are passing verification",
      chars
          "edits and passing checks are accumulating in the open turn before the final outcome is reported.",
    )
    else if ltb 0 counters.tests_passed
    then some (
      project ++ chars " validation is passing",
      chars "test signals are green in the open turn; the final handoff has not been reported yet.",
    )
    else if ltb 0 counters.files_changed && has_checks window
    then some (
      project ++ chars " update is moving through verification",
      chars
          "changed files are being checked in the open turn before a final pass/fail result is available.",
    )
    else none

unfoldable pub activity_checkpoint_copy : StoryWindow → Option (Str × Str)
activity_checkpoint_copy window =
    if is_turn window.key.family
    then and_then (concrete_activity_project window) (checkpoint_copy window)
    else none

unfoldable pub story_chips : StoryWindow → Option Str → ℕ → List Str
story_chips window project score =
    let family = story_family_label window.key.family in
    let placed = map_or project [] (λ p. p ∷ []) in
    let files =
      if ltb 0 window.counters.files_changed
      then (decimal window.counters.files_changed ++ chars " files") ∷ []
      else [] in
    take 5 (placed ++ family ∷ files ++ (chars "score " ++ decimal score) ∷ chars "redacted" ∷ [])

-- It always returns a story, so the `Option` of its type is left out.
unfoldable pub compile_story_with_copy : Time → StoryWindow → Str → Str → ℕ → ℕ → CompiledStory
compile_story_with_copy now window headline deck score context_score =
    let project = display_project_label window.key.project_hash in
    record {
      key = window.key;
      created_at = now;
      family = window.key.family;
      agent = window.key.agent;
      project = project;
      headline = headline;
      deck = deck;
      lower_third = lower_third_of window score;
      chips = story_chips window project score;
      severity = window.signals.highest_severity;
      score = score;
      context_score = context_score;
      privacy = PrivacyClass.redacted;
      evidence_event_ids = take 12 window.events;
    }

unfoldable pub compile_activity_checkpoint : Time → StoryWindow → Option CompiledStory
compile_activity_checkpoint now window =
    map_option
      (λ (copy : Str × Str).
        compile_story_with_copy now window copy.0 copy.1 (clamp (story_score window) 72 86)
          (clamp (context_score window) 76 100))
      (activity_checkpoint_copy window)

module _ ⦃u : Unicode⦄ where
  -- The headline and the deck, or the news copy that replaces them.
  unfoldable pub story_copy : StoryWindow → Str × Str
  story_copy window =
      let headline = headline_of window in
      let deck = deck_of window in
      unwrap_or (story_impact_rewrite window headline deck) (headline, deck)

  unfoldable pub compile_window_with_scores :
      Time → StoryWindow → Option ℕ → Option ℕ → CompiledStory
  compile_window_with_scores now window score_override context_score_override =
      let (headline, deck) = story_copy window in
      compile_story_with_copy now window headline deck
        (unwrap_or score_override (story_score window))
        (unwrap_or context_score_override (context_score window))

  unfoldable pub compile_rejection :
      StoryCompilerConfig → StoryWindow → Option StoryCompileRejection
  compile_rejection config window =
      let score = story_score window in
      let context = context_score window in
      let (headline, deck) = story_copy window in
      let reject : String → Option StoryCompileRejection =
        λ reason. some (record { reason = chars reason; score = score; context_score = context }) in
      if ltb score config.min_score
      then reject "score below publish threshold"
      else if ltb context config.min_context_score
      then reject "context below publish threshold"
      else if is_low_quality_story window headline deck
      then reject "summary was too generic or mechanical to publish"
      else none

  unfoldable pub compile_window : StoryCompilerConfig → Time → StoryWindow → Option CompiledStory
  compile_window config now window =
      if is_some (compile_rejection config window)
      then none
      else some (compile_window_with_scores now window none none)

  -- The update of an open turn whose summary speaks of progress or an outcome.
  unfoldable pub active_summary_story : Time → StoryWindow → Str → Option CompiledStory
  active_summary_story now window summary =
      let score = max (story_score window) 72 in
      let context = max (context_score window) 76 in
      let story =
        compile_window_with_scores now window (some (min score 88)) (some (min context 100)) in
      if is_low_quality_story window story.headline story.deck
        && not (active_summary_has_release_outcome summary)
      then compile_activity_checkpoint now window
      else some story

  unfoldable pub compile_active_update : Time → StoryWindow → Option CompiledStory
  compile_active_update now window =
      map_or window.signals.latest_summary (compile_activity_checkpoint now window) λ summary.
        if not (active_update_summary_for_project summary window.key.project_hash)
          && not (active_progress_summary_for_project summary window.key.project_hash)
        then compile_activity_checkpoint now window
        else active_summary_story now window summary

-- Opens the definitions of this module in a run.
unfoldable pub run_compile : Unit {0}
unfolding concrete_activity_project checkpoint_copy activity_checkpoint_copy story_chips
    compile_story_with_copy compile_activity_checkpoint story_copy compile_window_with_scores
    compile_rejection compile_window active_summary_story compile_active_update
run_compile = tt
