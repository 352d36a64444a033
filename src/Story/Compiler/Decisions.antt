-- ===== src/Story/Compiler/Decisions.antt =====
-- The diagnostics: counters, and the record of recent decisions.
use agent_feed.Core.{AgentEvent}
use agent_feed.Highlight.{score_event}
use agent_feed.Prelude.{String, if◌then◌else◌, length, ltb, some, take, wrapping_add, ℕ, ◌∷◌}
use agent_feed.Story.Compile.{StoryCompileRejection}
use agent_feed.Story.Compiler.State.{StoryCompiler}
use agent_feed.Story.Scores.{context_score, story_score}
use agent_feed.Story.Types.{
  CompiledStory, StoryDecision, StoryDecisionAction, StoryFamily, StoryWindow,
}
use agent_feed.Story.Window.{event_time}
use agent_feed.Text.{Str, chars}

abbrev pub default_decision_history : ℕ
default_decision_history = 40

unfoldable pub record_decision : StoryCompiler → StoryDecision → StoryCompiler
record_decision c decision =
    let recent = decision ∷ c.diagnostics.recent_decisions in
    record c {
      diagnostics = record c.diagnostics {
        last_decision = some decision;
        recent_decisions =
            if ltb default_decision_history (length recent)
            then take default_decision_history recent
            else recent;
      };
    }

unfoldable pub record_event_decision :
    StoryCompiler → AgentEvent → StoryFamily → StoryDecisionAction → String → StoryCompiler
record_event_decision c event family action reason = record_decision c (record {
  decided_at = event_time event;
  action = action;
  reason = chars reason;
  agent = event.agent;
  project = event.project;
  session_id = event.session_id;
  turn_id = event.turn_id;
  family = family;
  score = score_event event;
  context_score = 0;
})

-- What the decisions about a window share.
abbrev window_decision : StoryWindow → StoryDecisionAction → Str → ℕ → ℕ → StoryDecision
window_decision window action reason score context_score = record {
  decided_at = window.last_event_at;
  action = action;
  reason = reason;
  agent = window.key.agent;
  project = window.key.project_hash;
  session_id = window.key.session_id;
  turn_id = window.key.turn_id;
  family = window.key.family;
  score = score;
  context_score = context_score;
}

unfoldable pub record_window_decision :
    StoryCompiler → StoryWindow → StoryDecisionAction → String → StoryCompiler
record_window_decision c window action reason =
    record_decision c
      (window_decision window action (chars reason) (story_score window) (context_score window))

-- One more story of a kind in the diagnostics.
module _ (c : StoryCompiler) where
  unfoldable pub published_one : StoryCompiler
  published_one = record c {
    diagnostics = record c.diagnostics {
      published_stories = wrapping_add c.diagnostics.published_stories 1;
    };
  }

  unfoldable pub deduped_one : StoryCompiler
  deduped_one = record c {
    diagnostics = record c.diagnostics {
      deduped_stories = wrapping_add c.diagnostics.deduped_stories 1;
    };
  }

  unfoldable pub rejected_one : StoryCompiler
  rejected_one = record c {
    diagnostics = record c.diagnostics {
      rejected_stories = wrapping_add c.diagnostics.rejected_stories 1;
    };
  }

  unfoldable pub settled_one : StoryCompiler
  settled_one = record c {
    diagnostics = record c.diagnostics {
      settled_windows = wrapping_add c.diagnostics.settled_windows 1;
    };
  }

  unfoldable pub retained_one : StoryCompiler
  retained_one = record c {
    diagnostics = record c.diagnostics {
      retained_windows = wrapping_add c.diagnostics.retained_windows 1;
    };
  }

unfoldable pub record_window_rejection :
    StoryCompiler → StoryWindow → StoryCompileRejection → StoryCompiler
record_window_rejection c window rejection = record_decision (rejected_one c) (
    window_decision window StoryDecisionAction.rejected rejection.reason rejection.score
      rejection.context_score)

unfoldable pub record_story_decision :
    StoryCompiler → CompiledStory → StoryDecisionAction → String → StoryCompiler
record_story_decision c story action reason = record_decision c (record {
  decided_at = story.created_at;
  action = action;
  reason = chars reason;
  agent = story.agent;
  project = story.project;
  session_id = story.key.session_id;
  turn_id = story.key.turn_id;
  family = story.family;
  score = story.score;
  context_score = story.context_score;
})

-- Opens the definitions of this module in a run.
unfoldable pub run_decisions : Unit {0}
unfolding record_decision record_event_decision record_window_decision published_one deduped_one
    rejected_one settled_one retained_one record_window_rejection record_story_decision
run_decisions = tt
