-- ===== src/Story/Compiler/Stories/Flushed.antt =====
-- A whole flush: its stories, and the count of them in the diagnostics.
use mathlib.Core.List.{Memᴰ}
use mathlib.Core.Path.{subst}
use agent_feed.Prelude.{
  All, All-append, All-implies, Bool, BtreeMap, List, String, [], ap, arith, false, get, if-cases,
  if◌then◌else◌, inl, inr, is_none_or, length, length-append, list_eq, list_ord, ltb, map_or-cases,
  nat_eq, nat_ord, not, option_eq, option_ord, pair_eq, pair_ord, refl, true, wrapping_add, ℕ, ◌%◌,
  ◌&&◌, ◌++◌, ◌+◌, ◌==◌, ◌^◌, ◌∷◌, ◌≡◌, ◌⊎◌,
}
use agent_feed.Story.Compile.{
  StoryCompileRejection, compile_active_update, compile_rejection, compile_window,
}
use agent_feed.Story.Compiler.Decisions.{
  deduped_one, published_one, record_decision, record_story_decision, record_window_decision,
  record_window_rejection, rejected_one, retained_one, settled_one,
}
use agent_feed.Story.Compiler.Flush.{
  flush, flush_active, flush_gate, flush_publish, flush_window, flush_windows, retain_window,
}
use agent_feed.Story.Compiler.State.{StoryCompiler, accept_story}
use agent_feed.Story.Compiler.Stories.{IsPassed, active-IsUpdate, window-IsPassed}
use agent_feed.Story.Compiler.Stories.Turns.{
  IsTurnStory, IsTurnUpdate, IsTurnUpdate-cons, is_open_turn_window-IsOpenTurn,
}
use agent_feed.Story.Keys.{key_ord}
use agent_feed.Story.Scores.{is_open_turn_window, should_retain_open_window}
use agent_feed.Story.Signature.{active_update_fingerprint}
use agent_feed.Story.Types.{CompiledStory, StoryKey, StoryWindow, StoryWindowState}
use agent_feed.Text.{Str, Unicode}

-- A round over some windows: what it publishes is counted, and the configuration stays.
record IsCounted (Update : CompiledStory → Type 0) (c : StoryCompiler)
    (round : StoryCompiler × List CompiledStory) : Type 0 where
  same_config : round.0.config ≡ c.config
  count :
      round.0.diagnostics.published_stories % 2 ^ 64
      ≡ (c.diagnostics.published_stories + length round.1) % 2 ^ 64
  stories : All (λ story. IsPassed c.config story ⊎ Update story) round.1

module _ (Update : CompiledStory → Type 0) (c : StoryCompiler) where
  -- A step that publishes nothing.
  quiet :
      (d : StoryCompiler)
      → d.config ≡ c.config
      → d.diagnostics.published_stories ≡ c.diagnostics.published_stories
      → IsCounted Update c (d, [])
  quiet d h k = record { same_config = h; count = ground (arith); stories = tt }

  -- A step that publishes one story.
  told :
      (d : StoryCompiler) (story : CompiledStory)
      → d.config ≡ c.config
      → d.diagnostics.published_stories ≡ wrapping_add c.diagnostics.published_stories 1
      → IsPassed c.config story ⊎ Update story
      → IsCounted Update c (d, story ∷ [])
  unfolding wrapping_add
  told d story h k s = record { same_config = h; count = ground (arith); stories = (s, tt) }

module _ ⦃u : Unicode⦄ (Update : CompiledStory → Type 0) (c : StoryCompiler) (key : StoryKey)
    (window : StoryWindow) where
  retain-IsCounted : (reason : String) → IsCounted Update c (retain_window c key window reason, [])
  unfolding retain_window record_window_decision record_decision retained_one
  retain-IsCounted reason = quiet Update c _ refl refl

  reject-IsCounted :
      (rejection : StoryCompileRejection)
      → IsCounted Update c (record_window_rejection c window rejection, [])
  unfolding record_window_rejection record_decision rejected_one
  reject-IsCounted rejection = quiet Update c _ refl refl

  flush_publish-IsCounted :
      (story : CompiledStory)
      → IsPassed c.config story
      → IsCounted Update c (flush_publish (settled_one c) key story)
  unfolding flush_publish accept_story record_story_decision record_decision published_one
      deduped_one settled_one
  flush_publish-IsCounted story h =
      if-cases (IsCounted Update c) (accept_story (settled_one c) story []).1 _ _
        (λ new. told Update c _ story refl refl (inl h)) (λ old. quiet Update c _ refl refl)

  offer-keeps :
      (b : Bool) (story : CompiledStory) (extra : Str)
      → let offer = if b then accept_story c story extra else (c, false) in
        (offer.0.config ≡ c.config)
        × (offer.0.diagnostics.published_stories ≡ c.diagnostics.published_stories)
  unfolding accept_story
  offer-keeps true story extra = (refl, refl)
  offer-keeps false story extra = (refl, refl)

  active-IsCounted :
      (story : CompiledStory) → Update story → IsCounted Update c (flush_active c key window story)
  unfolding flush_active record_story_decision record_decision published_one deduped_one
  active-IsCounted story h =
      let fingerprint = active_update_fingerprint window story in
      let changed =
        is_none_or (get c.active_update_fingerprints key) (λ old. not (old == fingerprint)) in
      let (config, published) = offer-keeps changed story fingerprint in
      if-cases (IsCounted Update c)
        (if changed then accept_story c story fingerprint else (c, false)).1 _ _
        (λ new. told Update c _ story config (ap (λ n. wrapping_add n 1) published) (inr h))
        (λ old. quiet Update c _ config published)

  gate-IsCounted : (now : ℕ) → IsCounted Update c (flush_gate c now key window)
  unfolding flush_gate settled_one
  gate-IsCounted now =
      let settled = record window { state = StoryWindowState.settled } in
      map_or-cases (IsCounted Update c) (compile_rejection c.config window) _ _
        (λ passed.
          map_or-cases (IsCounted Update c) (compile_window c.config now settled) _ _
            (λ nothing. quiet Update c (settled_one c) refl refl)
            (λ story made.
              flush_publish-IsCounted story (window-IsPassed c.config now settled story made)))
        (λ rejection refused.
          if-cases (IsCounted Update c)
            (ltb rejection.score c.config.min_score && should_retain_open_window window) _ _
            (λ weak. retain-IsCounted _) (λ other. reject-IsCounted rejection))

module _ ⦃u : Unicode⦄ (now : ℕ) (c : StoryCompiler) (key : StoryKey) (window : StoryWindow) where
  abbrev Round : StoryCompiler × List CompiledStory → Type 0
  Round = IsCounted (IsTurnStory now window) c

  window-IsCounted : Round (flush_window c now key window)
  unfolding flush_window
  window-IsCounted =
      let Update = IsTurnStory now window in
      if-cases Round (window.publishable_events == 0) _ _
        (λ idle. retain-IsCounted Update c key window _)
        (λ busy.
          if-cases Round (is_open_turn_window window) _ _
            (λ turn.
              map_or-cases Round (compile_active_update now window) _ _
                (λ nothing.
                  if-cases Round (should_retain_open_window window) _ _
                    (λ waits. retain-IsCounted Update c key window _)
                    (λ done. gate-IsCounted Update c key window now))
                (λ story made. active-IsCounted Update c key window story (record {
                  turn = is_open_turn_window-IsOpenTurn window turn;
                  told = made;
                  update = active-IsUpdate now window story made;
                })))
            (λ other. gate-IsCounted Update c key window now))

-- A round whose updates are updates of another kind too.
weaken :
    {Update Wider : CompiledStory → Type 0} {c : StoryCompiler}
    (round : StoryCompiler × List CompiledStory)
    → ((story : CompiledStory) → Update story → Wider story)
    → IsCounted Update c round
    → IsCounted Wider c round
weaken {Update} {Wider} {c} round wider h = record {
  same_config = h.same_config;
  count = h.count;
  stories =
      All-implies (λ story. IsPassed c.config story ⊎ Update story)
        (λ story. IsPassed c.config story ⊎ Wider story) round.1
        (λ story told. elim told [ inl passed ↦ inl passed | inr u ↦ inr (wider story u) ])
        h.stories;
}

-- One round after another.
chain :
    {Update : CompiledStory → Type 0} {c d : StoryCompiler} (stories : List CompiledStory)
    (round : StoryCompiler × List CompiledStory)
    → IsCounted Update c (d, stories)
    → IsCounted Update d round
    → IsCounted Update c (round.0, stories ++ round.1)
chain {Update} {c} stories round h k = record {
  same_config = cc (k.same_config, h.same_config);
  count = ground (arith, length-append stories round.1, h.count, k.count);
  stories =
      All-append (λ story. IsPassed c.config story ⊎ Update story) stories round.1 h.stories
        (subst (λ config. All (λ story. IsPassed config story ⊎ Update story) round.1) h.same_config
          k.stories);
}

module _ ⦃u : Unicode⦄ where
  windows-IsCounted :
      (now : StoryKey → ℕ) (windows : BtreeMap StoryKey StoryWindow) (c : StoryCompiler)
      → IsCounted (IsTurnUpdate now windows) c (flush_windows c now windows)
  unfolding flush_windows
  windows-IsCounted now [] c = quiet (IsTurnUpdate now []) c c refl refl
  windows-IsCounted now ((key, window) ∷ windows) c =
      let first = flush_window c (now key) key window in
      let rest = flush_windows first.0 now windows in
      let entries : BtreeMap StoryKey StoryWindow = (key, window) ∷ windows in
      let told : IsCounted (IsTurnUpdate now entries) c first =
        weaken first
          (λ story s. record { key = key; window = window; waiting = Memᴰ.head refl; story_of = s })
          (window-IsCounted (now key) c key window) in
      let more : IsCounted (IsTurnUpdate now entries) first.0 rest =
        weaken rest (IsTurnUpdate-cons now (key, window) windows)
          (windows-IsCounted now windows first.0) in
      chain first.1 rest told more

  -- Every story of a flush has passed the thresholds of the configuration with scores of at most
  -- 100, or is the update of a turn: the story that tells of a window of the compiler, whose family
  -- is a turn, whose state is open and whose latest event neither completes nor fails the turn,
  -- with a score between 72 and 88 and a context score between 76 and 100; either way it carries
  -- the redacted privacy class and has at most 5 chips and 12 evidence ids.
  pub flush-IsPassed :
      (c : StoryCompiler) (now : StoryKey → ℕ)
      → All (λ story. IsPassed c.config story ⊎ IsTurnUpdate now c.windows story) (flush c now).1
  unfolding flush
  flush-IsPassed c now = (windows-IsCounted now c.windows (record c { windows = [] })).stories

  -- A flush adds the number of its stories to the count of published stories, modulo 2 ^ 64.
  pub flush-published :
      (c : StoryCompiler) (now : StoryKey → ℕ)
      → (flush c now).0.diagnostics.published_stories % 2 ^ 64
        ≡ (c.diagnostics.published_stories + length (flush c now).1) % 2 ^ 64
  unfolding flush
  flush-published c now = (windows-IsCounted now c.windows (record c { windows = [] })).count
