-- ===== src/Story/Compiler.antt =====
-- `StoryCompiler`: the windows, the dedupe memory and the diagnostics, with `ingest` and `flush`.
-- The clock is an argument: `now` of a call, or of each window of a flush.
pub mod Decisions
pub mod State
pub mod Flush
pub mod Stories
pub mod Context
pub mod Invariant
use agent_feed.Core.{AgentEvent, Time}
use agent_feed.Prelude.{
  Bool, List, [], false, get, if◌then◌else◌, insert, is_none, length, list_ord, map_or, nat_ord,
  not, option_ord, pair_ord, remove, true, unwrap_or, ◌&&◌, ◌∷◌,
}
use agent_feed.Story.Compile.{compile_rejection, compile_window}
use agent_feed.Story.Compiler.Decisions.{
  deduped_one, published_one, record_event_decision, record_story_decision, record_window_decision,
  record_window_rejection, settled_one,
}
use agent_feed.Story.Compiler.State.{StoryCompiler, accept_story}
use agent_feed.Story.Keys.{is_turn, key_ord, story_key}
use agent_feed.Story.Scores.{is_never_publish_event, is_startup_context, should_settle}
use agent_feed.Story.Types.{
  CompiledStory, StoryCompilerConfig, StoryCompilerDiagnostics, StoryDecisionAction, StoryFamily,
  StoryKey, StoryWindow, StoryWindowState, default_diagnostics,
}
use agent_feed.Story.Window.{event_time, new_window, observe, observe_with_publishable}
use agent_feed.Text.{Unicode}

abbrev pub no_stories : List CompiledStory
no_stories = []

unfoldable pub new_compiler : StoryCompilerConfig → StoryCompiler
new_compiler config = record {
  config = config;
  windows = [];
  recent_fingerprints = [];
  active_update_fingerprints = [];
  diagnostics = default_diagnostics;
}

unfoldable pub diagnostics_of : StoryCompiler → StoryCompilerDiagnostics
diagnostics_of c = record c.diagnostics { open_windows = length c.windows }

-- `windows.entry(key).or_insert_with(…)` and the observation of the event
unfoldable pub touch_window_with_key : StoryCompiler → StoryKey → AgentEvent → Bool → StoryCompiler
touch_window_with_key c key event publishable =
    let window = unwrap_or (get c.windows key) (new_window key (event_time event)) in
    record c { windows = insert c.windows key (observe_with_publishable window event publishable) }

unfoldable pub touch_turn_rollup : StoryCompiler → AgentEvent → Bool → StoryCompiler
touch_turn_rollup c event publishable =
    if is_none event.session_id && is_none event.turn_id
    then c
    else touch_window_with_key c (record (story_key event) { family = StoryFamily.turn }) event
        publishable

module _ ⦃u : Unicode⦄ where
  -- A settled window that passed the gate: published, or a repeat.
  unfoldable pub publish_settled :
      StoryCompiler → CompiledStory → StoryCompiler × List CompiledStory
  publish_settled c story =
      let (c', accepted) = accept_story c story [] in
      if accepted
      then (
        record_story_decision (published_one c') story StoryDecisionAction.published
            "story emitted",
        story ∷ [],
      )
      else (
        record_story_decision (deduped_one c') story StoryDecisionAction.deduped
            "similar story was already published recently",
        [],
      )

  -- The end of `ingest`: the window is settled, and rejected or compiled.
  unfoldable pub settle : StoryCompiler → Time → StoryWindow → StoryCompiler × List CompiledStory
  settle c now window =
      let window = record window { state = StoryWindowState.settled } in
      let c = settled_one c in
      map_or (compile_rejection c.config window)
        (map_or (compile_window c.config now window) (c, []) (λ story. publish_settled c story))
        (λ rejection. (record_window_rejection c window rejection, []))

  -- The middle of `ingest`: the window of an event that may publish.
  unfoldable pub ingest_publishable :
      StoryCompiler → Time → AgentEvent → StoryCompiler × List CompiledStory
  ingest_publishable c now event =
      let key = story_key event in
      let window =
        observe (unwrap_or (get c.windows key) (new_window key (event_time event))) event in
      let c = record c { windows = remove c.windows key } in
      if should_settle event window then settle c now window else (
        let c =
              record_window_decision c window StoryDecisionAction.waiting
                "window is still gathering context" in
            record c { windows = insert c.windows key window },
        [],
      )

  unfoldable pub ingest : StoryCompiler → Time → AgentEvent → StoryCompiler × List CompiledStory
  ingest c now event =
      let key = story_key event in
      let context_only = is_startup_context event in
      let turn = is_turn key.family in
      let rolled = if turn then c else touch_turn_rollup c event (not context_only) in
      if context_only
      then (
        let recorded =
              record_event_decision rolled event key.family StoryDecisionAction.waiting
                "startup context is waiting for future activity" in
            if turn then touch_window_with_key recorded key event false else recorded,
        [],
      )
      else if is_never_publish_event event
      then (
        touch_window_with_key
            (record_event_decision rolled event key.family StoryDecisionAction.waiting
              "waiting for a completion, test, edit, or incident signal")
            key event true,
        [],
      )
      else ingest_publishable rolled now event

-- Opens the definitions of this module in a run.
unfoldable pub run_compiler : Unit {0}
unfolding new_compiler diagnostics_of touch_window_with_key touch_turn_rollup publish_settled settle
    ingest_publishable ingest
run_compiler = tt
