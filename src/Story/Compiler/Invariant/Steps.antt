-- ===== src/Story/Compiler/Invariant/Steps.antt =====
-- The steps of `ingest` and `flush` on the invariant.
use agent_feed.Core.{AgentEvent}
use agent_feed.Prelude.{
  All, Bool, Bool-cases, BtreeMap, List, String, [], false, get, if-cases, if◌then◌else◌, inl, inr,
  is_none, is_none_or, list_eq, list_ord, ltb, map_or-cases, nat_eq, nat_ord, not, option_eq,
  option_ord, pair_eq, pair_ord, true, unwrap_or, ℕ, ◌&&◌, ◌==◌, ◌∷◌,
}
use agent_feed.Story.Compile.{compile_active_update, compile_rejection, compile_window}
use agent_feed.Story.Compiler.{
  ingest, ingest_publishable, publish_settled, settle, touch_turn_rollup, touch_window_with_key,
}
use agent_feed.Story.Compiler.Decisions.{settled_one}
use agent_feed.Story.Compiler.Flush.{
  flush, flush_active, flush_gate, flush_publish, flush_window, flush_windows, retain_window,
}
use agent_feed.Story.Compiler.Invariant.{
  IsEntry, IsValid, accept_story-IsValid, deduped_one-IsValid, event_decision-IsValid,
  insert-IsValid, observe-IsEntry, published_one-IsValid, rejection-IsValid, remove-IsValid,
  retained_one-IsValid, settled_one-IsValid, story_decision-IsValid, unwrap_or-IsEntry,
  window_decision-IsValid,
}
use agent_feed.Story.Compiler.State.{StoryCompiler, accept_story}
use agent_feed.Story.Keys.{is_turn, key_ord, story_key}
use agent_feed.Story.Scores.{
  is_never_publish_event, is_open_turn_window, is_startup_context, should_retain_open_window,
  should_settle,
}
use agent_feed.Story.Signature.{active_update_fingerprint}
use agent_feed.Story.Types.{
  CompiledStory, StoryDecisionAction, StoryKey, StoryWindow, StoryWindowState,
}
use agent_feed.Story.Window.{event_time, new_window, observe, observe_with_publishable}
use agent_feed.Text.{Str, Unicode}

abbrev Kept : StoryCompiler × List CompiledStory → Type 0
Kept round = IsValid round.0

abbrev Offered : StoryCompiler × Bool → Type 0
Offered offer = IsValid offer.0

touch-IsValid :
    {c : StoryCompiler}
    → IsValid c
    → (key : StoryKey) (event : AgentEvent) (publishable : Bool)
    → IsValid (touch_window_with_key c key event publishable)
unfolding touch_window_with_key
touch-IsValid v key event publishable =
    insert-IsValid v key _ (observe-IsEntry key _ event publishable (unwrap_or-IsEntry v key _))

rollup-IsValid :
    {c : StoryCompiler}
    → IsValid c
    → (event : AgentEvent) (publishable : Bool) → IsValid (touch_turn_rollup c event publishable)
unfolding touch_turn_rollup
rollup-IsValid v event publishable =
    elim (Bool-cases (is_none event.session_id && is_none event.turn_id)) [
      | inl free ↦ rw free v
      | inr bound ↦ rw bound (touch-IsValid v _ event publishable)
    ]

module _ ⦃u : Unicode⦄ where
  publish-IsValid :
      {c : StoryCompiler} → IsValid c → (story : CompiledStory) → Kept (publish_settled c story)
  unfolding publish_settled
  publish-IsValid {c} v story =
      let accepted = accept_story-IsValid v story [] in
      if-cases Kept (accept_story c story []).1 _ _
        (λ new. story_decision-IsValid (published_one-IsValid accepted) _ _ _)
        (λ old. story_decision-IsValid (deduped_one-IsValid accepted) _ _ _)

  settle-IsValid :
      {c : StoryCompiler}
      → IsValid c
      → (now : ℕ) (window : StoryWindow) → Kept (settle c now window)
  unfolding settle
  settle-IsValid {c} v now window =
      let settled = settled_one-IsValid v in
      let closed = record window { state = StoryWindowState.settled } in
      map_or-cases Kept (compile_rejection (settled_one c).config closed) _ _
        (λ passed.
          map_or-cases Kept (compile_window (settled_one c).config now closed) _ _
            (λ nothing. settled) (λ story told. publish-IsValid settled story))
        (λ rejection refused. rejection-IsValid settled closed rejection)

  publishable-IsValid :
      {c : StoryCompiler}
      → IsValid c
      → (now : ℕ) (event : AgentEvent) → Kept (ingest_publishable c now event)
  unfolding ingest_publishable observe
  publishable-IsValid {c} v now event =
      let key = story_key event in
      let before = unwrap_or (get c.windows key) (new_window key (event_time event)) in
      let entry =
        observe-IsEntry key before event true (unwrap_or-IsEntry v key (event_time event)) in
      let window = observe_with_publishable before event true in
      let removed = remove-IsValid v key in
      if-cases Kept (should_settle event window) _ _ (λ closes. settle-IsValid removed now window)
        (λ waits. insert-IsValid (window_decision-IsValid removed window _ _) key window entry)

  -- Taking in an event keeps the invariant of the compiler, whichever way the event goes: at most
  -- 40 recent decisions, a dedupe memory that is bounded and holds no fingerprint twice, and under
  -- every key an open, well-formed window of that key.
  pub ingest-IsValid :
      {c : StoryCompiler}
      → IsValid c
      → (now : ℕ) (event : AgentEvent) → IsValid (ingest c now event).0
  unfolding ingest
  ingest-IsValid {c} v now event =
      let key = story_key event in
      let turn = is_turn key.family in
      let context_only = is_startup_context event in
      let rolled =
        if-cases IsValid turn c (touch_turn_rollup c event (not context_only)) (λ h. v)
          (λ h. rollup-IsValid v event (not context_only)) in
      let noted = event_decision-IsValid rolled event key.family StoryDecisionAction.waiting in
      if-cases Kept context_only _ _
        (λ h.
          if-cases IsValid turn _ _ (λ t. touch-IsValid (noted _) key event false) (λ t. noted _))
        (λ h.
          if-cases Kept (is_never_publish_event event) _ _
            (λ t. touch-IsValid (noted _) key event true)
            (λ t. publishable-IsValid rolled now event))

module _ ⦃u : Unicode⦄ where
  retain-IsValid :
      {c : StoryCompiler}
      → IsValid c
      → (key : StoryKey) (window : StoryWindow) (reason : String) → IsEntry (key, window)
      → IsValid (retain_window c key window reason)
  unfolding retain_window
  retain-IsValid v key window reason h =
      insert-IsValid (window_decision-IsValid (retained_one-IsValid v) window _ reason) key window h

  -- The fingerprints of the active updates are in no part of the invariant.
  updates-IsValid :
      {c : StoryCompiler}
      → IsValid c
      → (updates : BtreeMap StoryKey Str)
      → IsValid (record c { active_update_fingerprints = updates })
  updates-IsValid v updates = record { history = v.history; memory = v.memory; windows = v.windows }

  active-IsValid :
      {c : StoryCompiler}
      → IsValid c
      → (key : StoryKey) (window : StoryWindow) (story : CompiledStory) → IsEntry (key, window)
      → Kept (flush_active c key window story)
  unfolding flush_active
  active-IsValid {c} v key window story h =
      let fingerprint = active_update_fingerprint window story in
      let changed =
        is_none_or (get c.active_update_fingerprints key) (λ old. not (old == fingerprint)) in
      let fresh = accept_story c story fingerprint in
      let offered =
        if-cases {B = StoryCompiler × Bool} Offered changed fresh (c, false)
          (λ new. accept_story-IsValid v story fingerprint) (λ same. v) in
      if-cases Kept (if changed then fresh else (c, false)).1 _ _
        (λ new.
          insert-IsValid
            (story_decision-IsValid (published_one-IsValid (updates-IsValid offered _)) _ _ _) key
            window h)
        (λ old.
          insert-IsValid (story_decision-IsValid (deduped_one-IsValid offered) _ _ _) key window h)

  flush_publish-IsValid :
      {c : StoryCompiler}
      → IsValid c
      → (key : StoryKey) (story : CompiledStory) → Kept (flush_publish c key story)
  unfolding flush_publish
  flush_publish-IsValid {c} v key story =
      let accepted = accept_story-IsValid v story [] in
      if-cases Kept (accept_story c story []).1 _ _
        (λ new. story_decision-IsValid (published_one-IsValid (updates-IsValid accepted _)) _ _ _)
        (λ old. story_decision-IsValid (deduped_one-IsValid accepted) _ _ _)

  gate-IsValid :
      {c : StoryCompiler}
      → IsValid c
      → (now : ℕ) (key : StoryKey) (window : StoryWindow) → IsEntry (key, window)
      → Kept (flush_gate c now key window)
  unfolding flush_gate
  gate-IsValid {c} v now key window h =
      let settled = record window { state = StoryWindowState.settled } in
      map_or-cases Kept (compile_rejection c.config window) _ _
        (λ passed.
          map_or-cases Kept (compile_window (settled_one c).config now settled) _ _
            (λ nothing. settled_one-IsValid v)
            (λ story told. flush_publish-IsValid (settled_one-IsValid v) key story))
        (λ rejection refused.
          if-cases Kept (ltb rejection.score c.config.min_score && should_retain_open_window window)
            _ _ (λ weak. retain-IsValid v key window _ h)
            (λ other. rejection-IsValid v window rejection))

  flush_window-IsValid :
      {c : StoryCompiler}
      → IsValid c
      → (now : ℕ) (key : StoryKey) (window : StoryWindow) → IsEntry (key, window)
      → Kept (flush_window c now key window)
  unfolding flush_window
  flush_window-IsValid {c} v now key window h =
      if-cases Kept (window.publishable_events == 0) _ _ (λ idle. retain-IsValid v key window _ h)
        (λ busy.
          if-cases Kept (is_open_turn_window window) _ _
            (λ turn.
              map_or-cases Kept (compile_active_update now window) _ _
                (λ nothing.
                  if-cases Kept (should_retain_open_window window) _ _
                    (λ waits. retain-IsValid v key window _ h)
                    (λ done. gate-IsValid v now key window h))
                (λ story told. active-IsValid v key window story h))
            (λ other. gate-IsValid v now key window h))

  flush_windows-IsValid :
      (now : StoryKey → ℕ) (windows : BtreeMap StoryKey StoryWindow) {c : StoryCompiler}
      → IsValid c
      → All IsEntry windows
      → Kept (flush_windows c now windows)
  unfolding flush_windows
  flush_windows-IsValid now [] v h = v
  flush_windows-IsValid now ((key, window) ∷ windows) v h =
      flush_windows-IsValid now windows (flush_window-IsValid v (now key) key window h.0) h.1

  -- A flush keeps the invariant of the compiler, whatever each window comes to: at most 40 recent
  -- decisions, a dedupe memory that is bounded and holds no fingerprint twice, and under every key
  -- an open, well-formed window of that key.
  pub flush-IsValid :
      {c : StoryCompiler} → IsValid c → (now : StoryKey → ℕ) → IsValid (flush c now).0
  unfolding flush
  flush-IsValid {c} v now =
      let emptied : IsValid (record c { windows = [] }) = record {
        history = v.history;
        memory = v.memory;
        windows = tt;
      } in
      flush_windows-IsValid now c.windows emptied v.windows
