-- ===== src/Story/Compiler/Context.antt =====
-- Startup context in `ingest` and in `flush`.
use agent_feed.Core.{AgentEvent}
use agent_feed.Prelude.{
  All, All-get, All-insert, Bool, BtreeMap, List, Option-cases, String, [], arith, false, get,
  get-insert, if-cases, if◌then◌else◌, inl, inr, is_none, list_ord, map_or, nat_ord, option_ord,
  pair_ord, refl, true, unwrap_or, ℕ, ◌&&◌, ◌∷◌, ◌≡◌,
}
use agent_feed.Story.Compiler.{ingest, new_compiler, touch_turn_rollup, touch_window_with_key}
use agent_feed.Story.Compiler.Decisions.{record_decision, record_event_decision}
use agent_feed.Story.Compiler.Flush.{flush, flush_window, flush_windows}
use agent_feed.Story.Compiler.State.{StoryCompiler}
use agent_feed.Story.Keys.{is_turn, key_cmp_eq_iff, key_ord, story_key}
use agent_feed.Story.Scores.{is_startup_context}
use agent_feed.Story.Types.{
  StoryCompilerConfig, StoryDecisionAction, StoryFamily, StoryKey, StoryWindow,
}
use agent_feed.Story.Window.{event_time, new_window, observe_with_publishable}
use agent_feed.Text.{Unicode}

-- The publishable events of a key, none where there is no window.
abbrev pub publishable_of : StoryCompiler → StoryKey → ℕ
publishable_of c key = map_or (get c.windows key) 0 (λ window. window.publishable_events)

touch-publishable :
    (c : StoryCompiler) (key : StoryKey) (event : AgentEvent) (other : StoryKey)
    → publishable_of (touch_window_with_key c key event false) other ≡ publishable_of c other
unfolding touch_window_with_key observe_with_publishable new_window
touch-publishable c key event other =
    let inserted =
      get-insert c.windows key
        (observe_with_publishable
          (unwrap_or (get c.windows key) (new_window key (event_time event))) event false)
        other in
    ground (arith, inserted, key_cmp_eq_iff other key)

rollup-publishable :
    (c : StoryCompiler) (event : AgentEvent) (other : StoryKey)
    → publishable_of (touch_turn_rollup c event false) other ≡ publishable_of c other
unfolding touch_turn_rollup
rollup-publishable c event other =
    if-cases (λ d. publishable_of d other ≡ publishable_of c other)
      (is_none event.session_id && is_none event.turn_id) _ _ (λ free. refl)
      (λ bound.
        touch-publishable c (record (story_key event) { family = StoryFamily.turn }) event other)

-- A note of an event leaves the windows alone.
noted-publishable :
    (c : StoryCompiler) (event : AgentEvent) (family : StoryFamily) (action : StoryDecisionAction)
    (reason : String) (other : StoryKey)
    → publishable_of (record_event_decision c event family action reason) other
      ≡ publishable_of c other
unfolding record_event_decision record_decision
noted-publishable c event family action reason other = refl

context_windows-publishable :
    (c : StoryCompiler) (key : StoryKey) (event : AgentEvent) (turn : Bool) (reason : String)
    (other : StoryKey)
    → let rolled = if turn then c else touch_turn_rollup c event false in
      let noted =
        record_event_decision rolled event key.family StoryDecisionAction.waiting reason in
      publishable_of (if turn then touch_window_with_key noted key event false else noted) other
      ≡ publishable_of c other
context_windows-publishable c key event true reason other = cc (
  touch-publishable (record_event_decision c event key.family StoryDecisionAction.waiting reason)
      key event other,
  noted-publishable c event key.family StoryDecisionAction.waiting reason other,
)
context_windows-publishable c key event false reason other = cc (
  rollup-publishable c event other,
  noted-publishable (touch_turn_rollup c event false) event key.family StoryDecisionAction.waiting
      reason other,
)

module _ ⦃u : Unicode⦄ where
  -- A startup-context event publishes no story, and leaves every window with as many publishable
  -- events as it had.
  pub ingest-startup_context :
      (c : StoryCompiler) (now : ℕ) (event : AgentEvent)
      → is_startup_context event ≡ true
      → ((ingest c now event).1 ≡ [])
        × ((key : StoryKey) → publishable_of (ingest c now event).0 key ≡ publishable_of c key)
  unfolding ingest
  ingest-startup_context c now event h =
      let turn = is_turn (story_key event).family in
      rw h (refl, λ key. context_windows-publishable c (story_key event) event turn _ key)

-- A window that has gathered context only.
abbrev IsIdle : StoryKey × StoryWindow → Type 0
IsIdle entry = entry.1.publishable_events ≡ 0

touch-IsIdle :
    (c : StoryCompiler) (key : StoryKey) (event : AgentEvent)
    → All IsIdle c.windows
    → All IsIdle (touch_window_with_key c key event false).windows
unfolding touch_window_with_key observe_with_publishable new_window
touch-IsIdle c key event h =
    let before = unwrap_or (get c.windows key) (new_window key (event_time event)) in
    let idle : before.publishable_events ≡ 0 = elim (Option-cases (get c.windows key)) [
      | inl absent ↦ rw absent refl
      | inr (window, found) ↦ rw found (All-get IsIdle c.windows key window h found)
    ] in
    All-insert IsIdle c.windows key (observe_with_publishable before event false) h idle

rollup-IsIdle :
    (c : StoryCompiler) (event : AgentEvent)
    → All IsIdle c.windows
    → All IsIdle (touch_turn_rollup c event false).windows
unfolding touch_turn_rollup
rollup-IsIdle c event h =
    if-cases {B = StoryCompiler} (λ d. All IsIdle d.windows)
      (is_none event.session_id && is_none event.turn_id) _ _ (λ free. h)
      (λ bound. touch-IsIdle c (record (story_key event) { family = StoryFamily.turn }) event h)

context-IsIdle :
    (c : StoryCompiler) (key : StoryKey) (event : AgentEvent) (turn : Bool) (reason : String)
    → All IsIdle c.windows
    → let rolled = if turn then c else touch_turn_rollup c event false in
      let noted =
        record_event_decision rolled event key.family StoryDecisionAction.waiting reason in
      All IsIdle (if turn then touch_window_with_key noted key event false else noted).windows
unfolding record_event_decision record_decision
context-IsIdle c key event true reason h =
    touch-IsIdle (record_event_decision c event key.family StoryDecisionAction.waiting reason) key
      event h
context-IsIdle c key event false reason h = rollup-IsIdle c event h

module _ ⦃u : Unicode⦄ where
  ingest-IsIdle :
      (c : StoryCompiler) (now : ℕ) (event : AgentEvent)
      → is_startup_context event ≡ true
      → All IsIdle c.windows
      → All IsIdle (ingest c now event).0.windows
  unfolding ingest
  ingest-IsIdle c now event e h = rw e (
      context-IsIdle c (story_key event) event (is_turn (story_key event).family)
        "startup context is waiting for future activity" h)

  -- The events of a list, taken in one after another with their clock readings.
  abbrev pub ingest_all : StoryCompiler → List (ℕ × AgentEvent) → StoryCompiler
  ingest_all c [] = c
  ingest_all c ((now, event) ∷ events) = ingest_all (ingest c now event).0 events

  abbrev pub AreContext : List (ℕ × AgentEvent) → Type 0
  AreContext = All (λ (e : ℕ × AgentEvent). is_startup_context e.1 ≡ true)

  ingest_all-IsIdle :
      (c : StoryCompiler) (events : List (ℕ × AgentEvent))
      → AreContext events
      → All IsIdle c.windows
      → All IsIdle (ingest_all c events).windows
  ingest_all-IsIdle c [] e h = h
  ingest_all-IsIdle c ((now, event) ∷ events) (e, es) h =
      ingest_all-IsIdle (ingest c now event).0 events es (ingest-IsIdle c now event e h)

  windows-idle :
      (now : StoryKey → ℕ) (windows : BtreeMap StoryKey StoryWindow) (c : StoryCompiler)
      → All IsIdle windows
      → (flush_windows c now windows).1 ≡ []
  unfolding flush_windows flush_window
  windows-idle now [] c h = refl
  windows-idle now ((key, window) ∷ windows) c (idle, h) = rw idle (windows-idle now windows _ h)

  -- A compiler that took in startup context and nothing else publishes no story when it is flushed.
  pub flush-startup_context :
      (config : StoryCompilerConfig) (events : List (ℕ × AgentEvent)) (now : StoryKey → ℕ)
      → AreContext events
      → (flush (ingest_all (new_compiler config) events) now).1 ≡ []
  unfolding flush new_compiler
  flush-startup_context config events now e =
      let c = ingest_all (new_compiler config) events in
      windows-idle now c.windows (record c { windows = [] })
        (ingest_all-IsIdle (new_compiler config) events e tt)
