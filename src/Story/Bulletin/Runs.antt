-- ===== src/Story/Bulletin/Runs.antt =====
-- What a run over a list of events publishes.
use mathlib.Core.Path.{subst}
use agent_feed.Core.{AgentEvent}
use agent_feed.Prelude.{
  All, All-append, All-implies, Bool, List, [], get, if-cases, if◌then◌else◌, inl, list_ord,
  map_or-cases, nat_ord, not, option_ord, pair_ord, refl, remove, unwrap_or, ℕ, ◌∷◌, ◌≡◌, ◌⊎◌,
}
use agent_feed.Story.Bulletin.{compile_events, ingest_events}
use agent_feed.Story.Compile.{compile_rejection, compile_window}
use agent_feed.Story.Compiler.{
  ingest, ingest_publishable, new_compiler, publish_settled, settle, touch_turn_rollup,
  touch_window_with_key,
}
use agent_feed.Story.Compiler.Decisions.{
  deduped_one, published_one, record_decision, record_event_decision, record_story_decision,
  record_window_decision, record_window_rejection, rejected_one, settled_one,
}
use agent_feed.Story.Compiler.Flush.{flush}
use agent_feed.Story.Compiler.State.{StoryCompiler, accept_story}
use agent_feed.Story.Compiler.Stories.{IsPassed, ingest-IsPassed, rolled-config}
use agent_feed.Story.Compiler.Stories.Flushed.{flush-IsPassed}
use agent_feed.Story.Compiler.Stories.Turns.{IsTurnUpdate}
use agent_feed.Story.Keys.{is_turn, key_ord, story_key}
use agent_feed.Story.Scores.{is_never_publish_event, is_startup_context, should_settle}
use agent_feed.Story.Types.{CompiledStory, StoryKey, StoryWindow, StoryWindowState, default_config}
use agent_feed.Story.Window.{event_time, new_window, observe}
use agent_feed.Text.{Unicode}

module _ (c : StoryCompiler) where
  -- A result with the configuration of the compiler.
  abbrev Same : StoryCompiler × List CompiledStory → Type 0
  Same round = round.0.config ≡ c.config

  touch-config :
      (key : StoryKey) (event : AgentEvent) (publishable : Bool)
      → (touch_window_with_key c key event publishable).config ≡ c.config
  unfolding touch_window_with_key
  touch-config key event publishable = refl

module _ ⦃u : Unicode⦄ where
  publish-config :
      (c : StoryCompiler) (story : CompiledStory) → (publish_settled c story).0.config ≡ c.config
  unfolding publish_settled accept_story record_story_decision record_decision published_one
      deduped_one
  publish-config c story =
      if-cases (Same c) (accept_story c story []).1 _ _ (λ new. refl) (λ old. refl)

  settle-config :
      (c : StoryCompiler) (now : ℕ) (window : StoryWindow)
      → (settle c now window).0.config ≡ c.config
  unfolding settle settled_one record_window_rejection record_decision rejected_one
  settle-config c now window =
      let closed = record window { state = StoryWindowState.settled } in
      map_or-cases (Same c) (compile_rejection c.config closed) _ _
        (λ passed.
          map_or-cases (Same c) (compile_window c.config now closed) _ _ (λ nothing. refl)
            (λ story told. publish-config (settled_one c) story))
        (λ rejection refused. refl)

  publishable-config :
      (c : StoryCompiler) (now : ℕ) (event : AgentEvent)
      → (ingest_publishable c now event).0.config ≡ c.config
  unfolding ingest_publishable record_window_decision record_decision
  publishable-config c now event =
      let key = story_key event in
      let window =
        observe (unwrap_or (get c.windows key) (new_window key (event_time event))) event in
      if-cases (Same c) (should_settle event window) _ _
        (λ closes. settle-config (record c { windows = remove c.windows key }) now window)
        (λ waits. refl)

  ingest-config :
      (c : StoryCompiler) (now : ℕ) (event : AgentEvent) → (ingest c now event).0.config ≡ c.config
  unfolding ingest record_event_decision record_decision touch_window_with_key
  ingest-config c now event =
      let turn = is_turn (story_key event).family in
      let context_only = is_startup_context event in
      let rolled = if turn then c else touch_turn_rollup c event (not context_only) in
      let same = rolled-config turn c event (not context_only) in
      if-cases (Same c) context_only _ _
        (λ h.
          if-cases {B = StoryCompiler} (λ d. d.config ≡ c.config) turn _ _ (λ t. same) (λ t. same))
        (λ h.
          if-cases (Same c) (is_never_publish_event event) _ _ (λ t. same)
            (λ t. cc (publishable-config rolled now event, same)))

  events-IsPassed :
      (c : StoryCompiler) (events : List (ℕ × AgentEvent))
      → All (IsPassed c.config) (ingest_events c events).1
        × ((ingest_events c events).0.config ≡ c.config)
  unfolding ingest_events
  events-IsPassed c [] = (tt, refl)
  events-IsPassed c ((now, event) ∷ events) =
      let first = ingest c now event in
      let same = ingest-config c now event in
      let (more, kept) = events-IsPassed first.0 events in
      let more : All (IsPassed c.config) (ingest_events first.0 events).1 =
        subst (λ config. All (IsPassed config) (ingest_events first.0 events).1) same more in
      (
        All-append (IsPassed c.config) first.1 (ingest_events first.0 events).1
            (ingest-IsPassed c now event) more,
        cc (kept, same),
      )

  -- A story of a run: it passed the default thresholds, or it is the update of a turn that is open
  -- in a window which is left after the last event.
  abbrev pub IsTold : List (ℕ × AgentEvent) → (StoryKey → ℕ) → CompiledStory → Type 0
  IsTold events now story =
      IsPassed default_config story
      ⊎ IsTurnUpdate now (ingest_events (new_compiler default_config) events).0.windows story

  -- Every story of a run over any list of events, its last flush included, has passed the
  -- thresholds of the default configuration with scores of at most 100, or is the update of a turn:
  -- the story that tells of a window that is left after the last event, whose family is a turn,
  -- whose state is open and whose latest event neither completes nor fails the turn, with a score
  -- between 72 and 88 and a context score between 76 and 100; either way it carries the redacted
  -- privacy class and has at most 5 chips and 12 evidence ids.
  pub compile_events-IsTold :
      (events : List (ℕ × AgentEvent)) (now : StoryKey → ℕ)
      → All (IsTold events now) (compile_events events now)
  unfolding compile_events new_compiler
  compile_events-IsTold events now =
      let (told, kept) = events-IsPassed (new_compiler default_config) events in
      let ran = ingest_events (new_compiler default_config) events in
      let c = ran.0 in
      let flushed : All (IsTold events now) (flush c now).1 =
        subst
          (λ config.
            All (λ story. IsPassed config story ⊎ IsTurnUpdate now c.windows story) (flush c now).1)
          kept (flush-IsPassed c now) in
      All-append (IsTold events now) ran.1 (flush c now).1
        (All-implies (IsPassed default_config) (IsTold events now) ran.1
          (λ story passed. inl passed) told)
        flushed
