-- ===== src/Story/Compiler/Stories/Turns.antt =====
-- The update of an open turn, told of a window of the compiler.
use mathlib.Core.List.{Memᴰ}
use agent_feed.Core.{EventKind}
use agent_feed.Prelude.{
  BtreeMap, arith, list_ord, nat_ord, option_ord, pair_ord, some, true, ℕ, ◌∷◌, ◌≡◌,
}
use agent_feed.Story.Compile.{compile_active_update}
use agent_feed.Story.Compiler.Stories.{IsUpdate}
use agent_feed.Story.Keys.{key_ord}
use agent_feed.Story.Scores.{is_open_turn_window}
use agent_feed.Story.Types.{CompiledStory, StoryFamily, StoryKey, StoryWindow, StoryWindowState}
use agent_feed.Text.{Unicode}

-- A window of an open turn: its family, its state and its latest event, which does not end it.
pub record IsOpenTurn (window : StoryWindow) : Type 0 where
  pub family : window.key.family ≡ StoryFamily.turn
  pub opened : window.state ≡ StoryWindowState.open_window
  pub not_complete : ¬ (window.signals.latest_kind ≡ some EventKind.turn_complete)
  pub not_failed : ¬ (window.signals.latest_kind ≡ some EventKind.turn_fail)

pub is_open_turn_window-IsOpenTurn :
    (window : StoryWindow) → is_open_turn_window window ≡ true → IsOpenTurn window
unfolding is_open_turn_window
is_open_turn_window-IsOpenTurn window h = record {
  family = ground arith;
  opened = ground arith;
  not_complete = λ ended. ground (arith, ended);
  not_failed = λ ended. ground (arith, ended);
}

-- The story that tells of a window of an open turn.
pub record IsTurnStory ⦃u : Unicode⦄ (now : ℕ) (window : StoryWindow) (story : CompiledStory)
    : Type 0 where
  pub turn : IsOpenTurn window
  pub told : compile_active_update now window ≡ some story
  pub update : IsUpdate story

-- The update of a turn that is open in some window.
pub record IsTurnUpdate ⦃u : Unicode⦄ (now : StoryKey → ℕ) (windows : BtreeMap StoryKey StoryWindow)
    (story : CompiledStory) : Type 0 where
  pub key : StoryKey
  pub window : StoryWindow
  pub waiting : Memᴰ (key, window) windows
  pub story_of : IsTurnStory (now key) window story

-- The windows before the first count as well.
pub IsTurnUpdate-cons :
    ⦃u : Unicode⦄ (now : StoryKey → ℕ) (entry : StoryKey × StoryWindow)
    (windows : BtreeMap StoryKey StoryWindow) (story : CompiledStory)
    → IsTurnUpdate now windows story
    → IsTurnUpdate now (entry ∷ windows) story
IsTurnUpdate-cons now entry windows story u = record {
  key = u.key;
  window = u.window;
  waiting = Memᴰ.tail u.waiting;
  story_of = u.story_of;
}
