-- ===== src/Story/Compiler/Stories.antt =====
-- What `ingest` and `flush` publish: the thresholds of the configuration, and the bounds of the
-- copy.
pub mod Flushed
pub mod Turns
use mathlib.Core.Path.{subst}
use agent_feed.Core.{AgentEvent, PrivacyClass}
use agent_feed.Prelude.{
  All, Bool, List, [], arith, get, guard-eq-some, if-cases, if◌then◌else◌, is_some,
  is_some-eq-false, length, length-take-le, list_ord, map_option-eq-some, map_or-cases, max, min,
  nat_ord, none, not, option_ord, pair_ord, refl, remove, some, some_injective, unwrap_or, ℕ, ◌&&◌,
  ◌≡◌, ◌≤◌,
}
use agent_feed.Story.Compile.{
  active_summary_story, activity_checkpoint_copy, clamp, compile_active_update,
  compile_activity_checkpoint, compile_rejection, compile_story_with_copy, compile_window,
  compile_window_with_scores, story_chips,
}
use agent_feed.Story.Compiler.{
  ingest, ingest_publishable, publish_settled, settle, touch_turn_rollup, touch_window_with_key,
}
use agent_feed.Story.Compiler.Decisions.{settled_one}
use agent_feed.Story.Compiler.State.{StoryCompiler, accept_story}
use agent_feed.Story.Keys.{is_turn, key_ord, story_key}
use agent_feed.Story.Quality.{is_low_quality_story}
use agent_feed.Story.Scores.{
  context_score, is_never_publish_event, is_startup_context, should_settle, story_score,
}
use agent_feed.Story.Summaries.{
  active_progress_summary_for_project, active_summary_has_release_outcome,
  active_update_summary_for_project,
}
use agent_feed.Story.Types.{CompiledStory, StoryCompilerConfig, StoryWindow, StoryWindowState}
use agent_feed.Story.Window.{event_time, new_window, observe}
use agent_feed.Text.{Str, Unicode}

-- A story with bounded parts and no raw text.
pub record IsPresentable (story : CompiledStory) : Type 0 where
  pub redacted : story.privacy ≡ PrivacyClass.redacted
  pub chips : length story.chips ≤ 5
  pub evidence : length story.evidence_event_ids ≤ 12

-- A story that has passed the gate of a configuration.
pub record IsPassed (config : StoryCompilerConfig) (story : CompiledStory) : Type 0 where
  pub score : config.min_score ≤ story.score
  pub score_max : story.score ≤ 100
  pub context : config.min_context_score ≤ story.context_score
  pub context_max : story.context_score ≤ 100
  pub presentable : IsPresentable story

-- What the copy of an update comes to: its scores are lifted to their own band.
pub record IsUpdate (story : CompiledStory) : Type 0 where
  pub low : 72 ≤ story.score
  pub high : story.score ≤ 88
  pub context_low : 76 ≤ story.context_score
  pub context_high : story.context_score ≤ 100
  pub presentable : IsPresentable story

copy-IsPresentable :
    (now : ℕ) (window : StoryWindow) (headline deck : Str) (score context : ℕ)
    → IsPresentable (compile_story_with_copy now window headline deck score context)
unfolding compile_story_with_copy story_chips
copy-IsPresentable now window headline deck score context = record {
  redacted = refl;
  chips = length-take-le 5 _;
  evidence = length-take-le 12 window.events;
}

copy-IsPassed :
    (config : StoryCompilerConfig) (now : ℕ) (window : StoryWindow) (headline deck : Str)
    {score context : ℕ}
    → (config.min_score ≤ score) × (score ≤ 100)
    → (config.min_context_score ≤ context) × (context ≤ 100)
    → IsPassed config (compile_story_with_copy now window headline deck score context)
unfolding compile_story_with_copy
copy-IsPassed config now window headline deck h k = record {
  score = h.0;
  score_max = h.1;
  context = k.0;
  context_max = k.1;
  presentable = copy-IsPresentable now window headline deck _ _;
}

copy-IsUpdate :
    (now : ℕ) (window : StoryWindow) (headline deck : Str) {score context : ℕ}
    → (72 ≤ score) × (score ≤ 88)
    → (76 ≤ context) × (context ≤ 100)
    → IsUpdate (compile_story_with_copy now window headline deck score context)
unfolding compile_story_with_copy
copy-IsUpdate now window headline deck h k = record {
  low = h.0;
  high = h.1;
  context_low = k.0;
  context_high = k.1;
  presentable = copy-IsPresentable now window headline deck _ _;
}

score-band : (n : ℕ) → (72 ≤ clamp n 72 86) × (clamp n 72 86 ≤ 88)
score-band n = omega arith

context-band : (n : ℕ) → (76 ≤ clamp n 76 100) × (clamp n 76 100 ≤ 100)
context-band n = omega arith

abbrev Told : (CompiledStory → Type 0) → StoryCompiler × List CompiledStory → Type 0
Told P round = All P round.1

story_score-le : (window : StoryWindow) → story_score window ≤ 100
unfolding story_score
story_score-le window = omega arith

context_score-le : (window : StoryWindow) → context_score window ≤ 100
unfolding context_score
context_score-le window = omega arith

module _ ⦃u : Unicode⦄ where
  -- A window that is not rejected is over both thresholds.
  pub accepted-scores :
      (config : StoryCompilerConfig) (window : StoryWindow)
      → compile_rejection config window ≡ none
      → (config.min_score ≤ story_score window) × (config.min_context_score ≤ context_score window)
  unfolding compile_rejection
  accepted-scores config window h = ground arith

  pub window-IsPassed :
      (config : StoryCompilerConfig) (now : ℕ) (window : StoryWindow) (story : CompiledStory)
      → compile_window config now window ≡ some story
      → IsPassed config story
  unfolding compile_window compile_window_with_scores
  window-IsPassed config now window story h =
      let (open_gate, made) = guard-eq-some (is_some (compile_rejection config window)) _ story h in
      let scores =
        accepted-scores config window
          (is_some-eq-false (compile_rejection config window) open_gate) in
      subst (IsPassed config) made (
        copy-IsPassed config now window _ _ (scores.0, story_score-le window)
          (scores.1, context_score-le window))

  publish-stories :
      (P : CompiledStory → Type 0) (c : StoryCompiler) (story : CompiledStory)
      → P story
      → All P (publish_settled c story).1
  unfolding publish_settled
  publish-stories P c story h =
      if-cases (Told P) (accept_story c story []).1 _ _ (λ new. (h, tt)) (λ old. tt)

  settle-stories :
      (c : StoryCompiler) (now : ℕ) (window : StoryWindow)
      → All (IsPassed c.config) (settle c now window).1
  unfolding settle settled_one
  settle-stories c now window =
      let closed = record window { state = StoryWindowState.settled } in
      map_or-cases (Told (IsPassed c.config)) (compile_rejection c.config closed) _ _
        (λ passed.
          map_or-cases (Told (IsPassed c.config)) (compile_window c.config now closed) _ _
            (λ nothing. tt)
            (λ story told.
              publish-stories (IsPassed c.config) (settled_one c) story
                (window-IsPassed c.config now closed story told)))
        (λ rejection refused. tt)

  publishable-stories :
      (c : StoryCompiler) (now : ℕ) (event : AgentEvent)
      → All (IsPassed c.config) (ingest_publishable c now event).1
  unfolding ingest_publishable
  publishable-stories c now event =
      let key = story_key event in
      let window =
        observe (unwrap_or (get c.windows key) (new_window key (event_time event))) event in
      if-cases (Told (IsPassed c.config)) (should_settle event window) _ _
        (λ closes. settle-stories (record c { windows = remove c.windows key }) now window)
        (λ waits. tt)

  pub rolled-config :
      (b : Bool) (c : StoryCompiler) (event : AgentEvent) (publishable : Bool)
      → (if b then c else touch_turn_rollup c event publishable).config ≡ c.config
  unfolding touch_turn_rollup touch_window_with_key
  rolled-config b c event publishable = ground arith

  -- Every story that `ingest` publishes has at least the score and the context score that the
  -- configuration asks for and at most 100 of either, carries the redacted privacy class, and has
  -- at most 5 chips and 12 evidence ids.
  pub ingest-IsPassed :
      (c : StoryCompiler) (now : ℕ) (event : AgentEvent)
      → All (IsPassed c.config) (ingest c now event).1
  unfolding ingest
  ingest-IsPassed c now event =
      let turn = is_turn (story_key event).family in
      let publishable = not (is_startup_context event) in
      let rolled = if turn then c else touch_turn_rollup c event publishable in
      let stories = publishable-stories rolled now event in
      if-cases (Told (IsPassed c.config)) (is_startup_context event) _ _ (λ context. tt)
        (λ work.
          if-cases (Told (IsPassed c.config)) (is_never_publish_event event) _ _ (λ quiet. tt)
            (λ loud.
              subst (λ config. All (IsPassed config) (ingest_publishable rolled now event).1)
                (rolled-config turn c event publishable) stories))

  checkpoint-IsUpdate :
      (now : ℕ) (window : StoryWindow) (story : CompiledStory)
      → compile_activity_checkpoint now window ≡ some story
      → IsUpdate story
  unfolding compile_activity_checkpoint
  checkpoint-IsUpdate now window story h =
      let (copy, made) = map_option-eq-some _ (activity_checkpoint_copy window) story h in
      subst IsUpdate made (copy-IsUpdate now window copy.0 copy.1 (score-band _) (context-band _))

  summary-IsUpdate :
      (now : ℕ) (window : StoryWindow) (summary : Str) (story : CompiledStory)
      → active_summary_story now window summary ≡ some story
      → IsUpdate story
  unfolding active_summary_story compile_window_with_scores
  summary-IsUpdate now window summary story h =
      let score = max (story_score window) 72 in
      let context = max (context_score window) 76 in
      let made =
        compile_window_with_scores now window (some (min score 88)) (some (min context 100)) in
      if-cases (λ o. o ≡ some story → IsUpdate story)
        (is_low_quality_story window made.headline made.deck
          && not (active_summary_has_release_outcome summary))
        _ _ (λ low e. checkpoint-IsUpdate now window story e)
        (λ fine e.
          subst IsUpdate (some_injective e)
            (copy-IsUpdate now window _ _ (omega arith) (omega arith)))
        h

  pub active-IsUpdate :
      (now : ℕ) (window : StoryWindow) (story : CompiledStory)
      → compile_active_update now window ≡ some story
      → IsUpdate story
  unfolding compile_active_update
  active-IsUpdate now window story h =
      map_or-cases (λ o. o ≡ some story → IsUpdate story) window.signals.latest_summary _ _
        (λ silent e. checkpoint-IsUpdate now window story e)
        (λ summary said.
          if-cases (λ o. o ≡ some story → IsUpdate story)
            (not (active_update_summary_for_project summary window.key.project_hash)
              && not (active_progress_summary_for_project summary window.key.project_hash))
            _ _ (λ stale e. checkpoint-IsUpdate now window story e)
            (λ news e. summary-IsUpdate now window summary story e))
        h
