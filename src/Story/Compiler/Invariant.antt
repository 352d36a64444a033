-- ===== src/Story/Compiler/Invariant.antt =====
-- The invariant of the compiler, and the parts of `ingest` and `flush` on it.
pub mod Steps
pub mod Paths
use agent_feed.Core.{AgentEvent}
use agent_feed.Prelude.{
  All, All-get, All-insert, All-remove, Bool, List, Option-cases, String, arith, get, if◌then◌else◌,
  inl, inr, insert, length, length-take-le, list_ord, ltb, nat_ord, option_ord, pair_ord, refl,
  remove, take, unwrap_or, ℕ, ◌∷◌, ◌≡◌, ◌≤◌,
}
use agent_feed.Story.Compile.{StoryCompileRejection}
use agent_feed.Story.Compiler.{new_compiler}
use agent_feed.Story.Compiler.Decisions.{
  deduped_one, published_one, record_decision, record_event_decision, record_story_decision,
  record_window_decision, record_window_rejection, rejected_one, retained_one, settled_one,
}
use agent_feed.Story.Compiler.State.{StoryCompiler, accept_story}
use agent_feed.Story.Compiler.State.Memory.{IsMemory, remember-IsMemory}
use agent_feed.Story.Keys.{key_ord}
use agent_feed.Story.Types.{
  CompiledStory, StoryCompilerConfig, StoryDecision, StoryDecisionAction, StoryFamily, StoryKey,
  StoryWindow, StoryWindowState,
}
use agent_feed.Story.Window.{new_window, observe_with_publishable}
use agent_feed.Story.Window.Invariant.{IsWellFormed, new_window-IsWellFormed, observe-IsWellFormed}
use agent_feed.Text.{Str}

-- An entry of the map: the window of its key, open and well-formed.
pub record IsEntry (entry : StoryKey × StoryWindow) : Type 0 where
  pub keyed : entry.1.key ≡ entry.0
  pub opened : entry.1.state ≡ StoryWindowState.open_window
  pub well_formed : IsWellFormed entry.1

pub record IsValid (c : StoryCompiler) : Type 0 where
  pub history : length c.diagnostics.recent_decisions ≤ 40
  pub memory : IsMemory c.config.dedupe_window_events c.recent_fingerprints
  pub windows : All IsEntry c.windows

pub new_compiler-IsValid : (config : StoryCompilerConfig) → IsValid (new_compiler config)
unfolding new_compiler
new_compiler-IsValid config = record {
  history = omega arith;
  memory = record { bounded = omega arith; distinct = tt };
  windows = tt;
}

history_bound :
    (recent : List StoryDecision)
    → length (if ltb 40 (length recent) then take 40 recent else recent) ≤ 40
history_bound recent = ground (arith, length-take-le 40 recent)

module _ {c : StoryCompiler} (v : IsValid c) where
  pub record_decision-IsValid : (decision : StoryDecision) → IsValid (record_decision c decision)
  unfolding record_decision
  record_decision-IsValid decision = record {
    history = history_bound (decision ∷ c.diagnostics.recent_decisions);
    memory = v.memory;
    windows = v.windows;
  }

  pub event_decision-IsValid :
      (event : AgentEvent) (family : StoryFamily) (action : StoryDecisionAction) (reason : String)
      → IsValid (record_event_decision c event family action reason)
  unfolding record_event_decision
  event_decision-IsValid event family action reason = record_decision-IsValid _

  pub window_decision-IsValid :
      (window : StoryWindow) (action : StoryDecisionAction) (reason : String)
      → IsValid (record_window_decision c window action reason)
  unfolding record_window_decision
  window_decision-IsValid window action reason = record_decision-IsValid _

  pub story_decision-IsValid :
      (story : CompiledStory) (action : StoryDecisionAction) (reason : String)
      → IsValid (record_story_decision c story action reason)
  unfolding record_story_decision
  story_decision-IsValid story action reason = record_decision-IsValid _

  pub published_one-IsValid : IsValid (published_one c)
  unfolding published_one
  published_one-IsValid = record { history = v.history; memory = v.memory; windows = v.windows }

  pub deduped_one-IsValid : IsValid (deduped_one c)
  unfolding deduped_one
  deduped_one-IsValid = record { history = v.history; memory = v.memory; windows = v.windows }

  pub rejected_one-IsValid : IsValid (rejected_one c)
  unfolding rejected_one
  rejected_one-IsValid = record { history = v.history; memory = v.memory; windows = v.windows }

  pub settled_one-IsValid : IsValid (settled_one c)
  unfolding settled_one
  settled_one-IsValid = record { history = v.history; memory = v.memory; windows = v.windows }

  pub retained_one-IsValid : IsValid (retained_one c)
  unfolding retained_one
  retained_one-IsValid = record { history = v.history; memory = v.memory; windows = v.windows }

  pub accept_story-IsValid :
      (story : CompiledStory) (extra : Str) → IsValid (accept_story c story extra).0
  unfolding accept_story
  accept_story-IsValid story extra = record {
    history = v.history;
    memory = remember-IsMemory _ c.recent_fingerprints _ v.memory;
    windows = v.windows;
  }

  pub insert-IsValid :
      (key : StoryKey) (window : StoryWindow)
      → IsEntry (key, window)
      → IsValid (record c { windows = insert c.windows key window })
  insert-IsValid key window h = record {
    history = v.history;
    memory = v.memory;
    windows = All-insert IsEntry c.windows key window v.windows h;
  }

  pub remove-IsValid : (key : StoryKey) → IsValid (record c { windows = remove c.windows key })
  remove-IsValid key = record {
    history = v.history;
    memory = v.memory;
    windows = All-remove IsEntry c.windows key v.windows;
  }

  -- The window of a key, or a new one, is an entry.
  pub unwrap_or-IsEntry :
      (key : StoryKey) (now : ℕ) → IsEntry (key, unwrap_or (get c.windows key) (new_window key now))
  unfolding new_window
  unwrap_or-IsEntry key now = elim (Option-cases (get c.windows key)) [
    | inl absent ↦
        rw absent
          (record { keyed = refl; opened = refl; well_formed = new_window-IsWellFormed key now })
    | inr (window, found) ↦ rw found (All-get IsEntry c.windows key window v.windows found)
  ]

pub rejection-IsValid :
    {c : StoryCompiler}
    → IsValid c
    → (window : StoryWindow) (r : StoryCompileRejection)
    → IsValid (record_window_rejection c window r)
unfolding record_window_rejection
rejection-IsValid v window r = record_decision-IsValid (rejected_one-IsValid v) _

pub observe-IsEntry :
    (key : StoryKey) (window : StoryWindow) (event : AgentEvent) (publishable : Bool)
    → IsEntry (key, window)
    → IsEntry (key, observe_with_publishable window event publishable)
unfolding observe_with_publishable
observe-IsEntry key window event publishable h = record {
  keyed = h.keyed;
  opened = h.opened;
  well_formed = observe-IsWellFormed window event publishable h.well_formed;
}
