-- ===== src/Story/Compiler/Flush.antt =====
-- `flush`: one round for each window, in the order of the keys, over the emptied map.
use agent_feed.Core.{Time}
use agent_feed.Prelude.{
  BtreeMap, List, String, [], false, get, if◌then◌else◌, insert, is_none_or, list_eq, list_ord, ltb,
  map_or, nat_eq, nat_ord, not, option_eq, option_ord, pair_eq, pair_ord, remove, ◌&&◌, ◌++◌, ◌==◌,
  ◌∷◌,
}
use agent_feed.Story.Compile.{compile_active_update, compile_rejection, compile_window}
use agent_feed.Story.Compiler.Decisions.{
  deduped_one, published_one, record_story_decision, record_window_decision,
  record_window_rejection, retained_one, settled_one,
}
use agent_feed.Story.Compiler.State.{StoryCompiler, accept_story}
use agent_feed.Story.Keys.{key_ord}
use agent_feed.Story.Scores.{is_open_turn_window, should_retain_open_window}
use agent_feed.Story.Signature.{active_update_fingerprint}
use agent_feed.Story.Types.{
  CompiledStory, StoryDecisionAction, StoryKey, StoryWindow, StoryWindowState,
}
use agent_feed.Text.{Unicode}

abbrev Round : Type 0
Round = StoryCompiler × List CompiledStory

-- `self.windows.insert(key, window)`
abbrev keep_window : StoryCompiler → StoryKey → StoryWindow → StoryCompiler
keep_window c key window = record c { windows = insert c.windows key window }

-- A window that stays for a later flush.
unfoldable pub retain_window : StoryCompiler → StoryKey → StoryWindow → String → StoryCompiler
retain_window c key window reason =
    keep_window (record_window_decision (retained_one c) window StoryDecisionAction.retained reason)
      key window

module _ ⦃u : Unicode⦄ where
  -- The update of an open turn: published if it changed and is new, else a repeat.
  unfoldable pub flush_active : StoryCompiler → StoryKey → StoryWindow → CompiledStory → Round
  flush_active c key window story =
      let fingerprint = active_update_fingerprint window story in
      let changed =
        is_none_or (get c.active_update_fingerprints key) (λ old. not (old == fingerprint)) in
      let (c', accepted) = if changed then accept_story c story fingerprint else (c, false) in
      let noted = record c' {
        active_update_fingerprints = insert c'.active_update_fingerprints key fingerprint;
      } in
      if accepted
      then (
        keep_window
            (record_story_decision (published_one noted) story StoryDecisionAction.published
              "active update emitted")
            key window,
        story ∷ [],
      )
      else (
        keep_window
            (record_story_decision (deduped_one c') story StoryDecisionAction.deduped
              "active update did not meaningfully change")
            key window,
        [],
      )

  -- The settled window of a flush: published, or a repeat.
  unfoldable pub flush_publish : StoryCompiler → StoryKey → CompiledStory → Round
  flush_publish c key story =
      let (c', accepted) = accept_story c story [] in
      let forgotten = record c' {
        active_update_fingerprints = remove c'.active_update_fingerprints key;
      } in
      if accepted
      then (
        record_story_decision (published_one forgotten) story StoryDecisionAction.published
            "story emitted",
        story ∷ [],
      )
      else (
        record_story_decision (deduped_one c') story StoryDecisionAction.deduped
            "similar story was already published recently",
        [],
      )

  -- The gate of a window that is no open turn, or one with nothing to tell.
  unfoldable pub flush_gate : StoryCompiler → Time → StoryKey → StoryWindow → Round
  flush_gate c now key window =
      map_or (compile_rejection c.config window)
        (let settled = record window { state = StoryWindowState.settled } in
          let c = settled_one c in
          map_or (compile_window c.config now settled) (c, []) (λ story. flush_publish c key story))
        (λ rejection.
          if ltb rejection.score c.config.min_score && should_retain_open_window window
          then (
            retain_window c key window "waiting for stronger story signal before publishing",
            [],
          )
          else (record_window_rejection c window rejection, []))

  unfoldable pub flush_window : StoryCompiler → Time → StoryKey → StoryWindow → Round
  flush_window c now key window =
      if window.publishable_events == 0
      then (retain_window c key window "startup context is waiting for future activity", [])
      else if is_open_turn_window window
      then map_or (compile_active_update now window)
          (if should_retain_open_window window
            then (
              retain_window c key window "open turn is waiting for a meaningful outcome update",
              [],
            )
            else flush_gate c now key window)
          (λ story. flush_active c key window story)
      else flush_gate c now key window

  unfoldable pub flush_windows :
      StoryCompiler → (StoryKey → Time) → BtreeMap StoryKey StoryWindow → Round
  flush_windows c now [] = (c, [])
  flush_windows c now ((key, window) ∷ windows) =
      let (c', stories) = flush_window c (now key) key window in
      let (c'', more) = flush_windows c' now windows in (c'', stories ++ more)

  unfoldable pub flush : StoryCompiler → (StoryKey → Time) → Round
  flush c now = flush_windows (record c { windows = [] }) now c.windows

-- Opens the definitions of this module in a run.
unfoldable pub run_flush : Unit {0}
unfolding retain_window flush_active flush_publish flush_gate flush_window flush_windows flush
run_flush = tt
