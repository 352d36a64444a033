-- ===== src/Story/Compiler/State.antt =====
-- The state of the compiler, and the memory of recent fingerprints.
pub mod Memory
use agent_feed.Prelude.{
  Bool, BtreeMap, List, [], any_eq, false, if◌then◌else◌, length, list_eq, ltb, max, nat_eq,
  option_eq, pair_eq, pop_front, suc, true, unwrap_or, zero, ℕ, ◌++◌, ◌∷◌,
}
use agent_feed.Story.Keys.{family_debug}
use agent_feed.Story.Signature.{semantic_story_fingerprint}
use agent_feed.Story.Types.{
  CompiledStory, StoryCompilerConfig, StoryCompilerDiagnostics, StoryKey, StoryWindow,
}
use agent_feed.Text.{Str, chars}

pub record StoryCompiler : Type 0 where
  pub config : StoryCompilerConfig
  pub windows : BtreeMap StoryKey StoryWindow
  pub recent_fingerprints : List Str
  pub active_update_fingerprints : BtreeMap StoryKey Str
  pub diagnostics : StoryCompilerDiagnostics

-- `while recent.len() > limit { recent.pop_front(); }` after one `push_back`, on fuel: as many
-- rounds as there are fingerprints.
unfoldable pub trim_front : ℕ → ℕ → List Str → List Str
trim_front zero limit xs = xs
trim_front (suc fuel) limit xs =
    let rest = trim_front fuel limit (pop_front xs) in if ltb limit (length xs) then rest else xs

unfoldable pub story_fingerprint : CompiledStory → Str → Str
story_fingerprint story extra =
    story.agent
    ++ chars ":"
    ++ unwrap_or story.project (chars "local")
    ++ chars ":"
    ++ family_debug story.family
    ++ chars ":"
    ++ semantic_story_fingerprint story.headline story.deck
    ++ chars ":"
    ++ extra

-- The dedupe memory by itself: whether a fingerprint is new, and the memory with it.
unfoldable pub remember : ℕ → List Str → Str → List Str × Bool
remember dedupe_window recent fingerprint =
    let pushed = recent ++ fingerprint ∷ [] in
    if any_eq recent fingerprint
    then (recent, false)
    else (trim_front (length pushed) (max dedupe_window 1) pushed, true)

-- `accept_story_with_extra`; `accept_story` passes no extra.
unfoldable pub accept_story : StoryCompiler → CompiledStory → Str → StoryCompiler × Bool
accept_story c story extra =
    let (recent, accepted) =
      remember c.config.dedupe_window_events c.recent_fingerprints
        (story_fingerprint story extra) in
    (record c { recent_fingerprints = recent }, accepted)

-- Opens the definitions of this module in a run.
unfoldable pub run_state : Unit {0}
unfolding trim_front story_fingerprint remember accept_story
run_state = tt
