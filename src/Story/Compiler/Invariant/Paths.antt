-- ===== src/Story/Compiler/Invariant/Paths.antt =====
-- The summaries that wait in the windows of a run.
use mathlib.Core.Path.{subst}
use agent_feed.Core.{AgentEvent}
use agent_feed.Prelude.{
  All-get, List, [], arith, false, get, inl, inr, is_some_and, list_ord, nat_ord, option_ord,
  pair_ord, some, ℕ, ◌∷◌, ◌≡◌, ◌⊎◌,
}
use agent_feed.Story.Bulletin.{ingest_events}
use agent_feed.Story.Compiler.{new_compiler}
use agent_feed.Story.Compiler.Flush.{flush}
use agent_feed.Story.Compiler.Invariant.{IsEntry, IsValid, new_compiler-IsValid}
use agent_feed.Story.Compiler.Invariant.Steps.{flush-IsValid, ingest-IsValid}
use agent_feed.Story.Compiler.State.{StoryCompiler}
use agent_feed.Story.Keys.{key_ord}
use agent_feed.Story.Summaries.{summary_is_redundant}
use agent_feed.Story.Types.{StoryCompilerConfig, StoryKey, StoryWindow}
use agent_feed.Story.Vocabulary.Redundant.{path_needles}
use agent_feed.Text.{Str, Unicode, contains_any, to_ascii_lowercase}

window-no_home_path :
    (c : StoryCompiler) (key : StoryKey) (window : StoryWindow) (summary : Str)
    → IsValid c
    → get c.windows key ≡ some window
    → window.signals.latest_summary ≡ some summary
    → contains_any (to_ascii_lowercase summary) path_needles ≡ false
unfolding summary_is_redundant
window-no_home_path c key window summary v found said =
    let entry = All-get IsEntry c.windows key window v.windows found in
    let clean : summary_is_redundant summary ≡ false =
      subst (λ o. is_some_and o summary_is_redundant ≡ false) said entry.well_formed.summary in
    ground arith

module _ ⦃u : Unicode⦄ where
  ingest_events-IsValid :
      (events : List (ℕ × AgentEvent)) {c : StoryCompiler}
      → IsValid c
      → IsValid (ingest_events c events).0
  unfolding ingest_events
  ingest_events-IsValid [] v = v
  ingest_events-IsValid ((now, event) ∷ events) v =
      ingest_events-IsValid events (ingest-IsValid v now event)

  -- After a run of a new compiler of any configuration over any events, and after a flush of it
  -- too, no window keeps a summary that holds `/home/` or `\home\`, in any case of the letters.
  pub ingest_events-no_home_path :
      (config : StoryCompilerConfig) (events : List (ℕ × AgentEvent)) (now : StoryKey → ℕ)
      (key : StoryKey) (window : StoryWindow) (summary : Str)
      → let c = (ingest_events (new_compiler config) events).0 in
        (get c.windows key ≡ some window) ⊎ (get (flush c now).0.windows key ≡ some window)
        → window.signals.latest_summary ≡ some summary
        → contains_any (to_ascii_lowercase summary) path_needles ≡ false
  ingest_events-no_home_path config events now key window summary found said =
      let c = (ingest_events (new_compiler config) events).0 in
      let v = ingest_events-IsValid events (new_compiler-IsValid config) in
      elim found [
        | inl waits ↦ window-no_home_path c key window summary v waits said
        | inr stays ↦
            window-no_home_path (flush c now).0 key window summary (flush-IsValid v now) stays said
      ]
